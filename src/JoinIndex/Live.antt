-- ===== src/JoinIndex/Live.antt =====
-- Which handoffs are live (src/runtime/task_state/join_index.rs).
use vexcoder.Prelude.{
  ◌≡◌, refl, sym, ◌∙◌, subst, ap, inl, inr, Bool, true, false, not, ◌||◌, some, List, [], ◌∷◌, ◌++◌,
  arith, any, retain, if◌then◌else◌, Bool-cases, Text, text_eq, text_eq_iff, text_eq_refl,
}
use vexcoder.Prelude.Assoc.{Assoc, lookup, insert, lookup-insert}
use vexcoder.JoinIndex.Index.{
  text_lt, put, by_key, LiveJoinEntry, JoinIndex, has_text, add_new, or_new, post, values,
  is_superseded, live_entries,
}

pub has_text-append :
    (x : Text) (a b : List Text) → has_text x (a ++ b) ≡ (has_text x a || has_text x b)
has_text-append x [] b = refl
has_text-append x (y ∷ a) b = ground (arith, has_text-append x a b)

add_new-keeps :
    (x : Text) (have more : List Text)
    → has_text x have ≡ true
    → has_text x (add_new have more) ≡ true
unfolding add_new
add_new-keeps x have [] h = h
add_new-keeps x have (y ∷ more) h =
    add_new-keeps x (if has_text y have then have else have ++ (y ∷ [])) more
      (ground (arith, has_text-append x have (y ∷ []), h))

-- What the list has of the ids after the loop: just the old ones and the new ones.
pub add_new-has :
    (x : Text) (have more : List Text)
    → has_text x (add_new have more) ≡ (has_text x have || has_text x more)
unfolding add_new
add_new-has x have [] = ground arith
add_new-has x have (y ∷ more) = elim (Bool-cases (has_text y have)) [
  | inr new ↦
      rw new
        (ground (arith, add_new-has x (have ++ (y ∷ [])) more, has_text-append x have (y ∷ [])))
  | inl known ↦ elim (Bool-cases (text_eq y x)) [
    | inr other ↦ rw known (ground (arith, other, add_new-has x have more))
    | inl same ↦
        let e : y ≡ x = (text_eq_iff y x).0 same in
        let has : has_text x have ≡ true = subst (λ (t : Text). has_text t have ≡ true) e known in
        rw known (ground (arith, has, add_new-has x have more))
  ]
]

-- What the index holds behind a post.
abbrev pub Posted : JoinIndex → Text → Text → Text → List Text → JoinIndex → Type 0
Posted index id agent body supersedes after =
    (e : LiveJoinEntry) × (lookup id after.entries ≡ some e)
    × (e.agent_id ≡ agent)
    × (e.body ≡ body)
    × ((x : Text)
        → has_text x e.supersedes
          ≡ (has_text x (or_new id (lookup id index.entries)) || has_text x supersedes))
    × ((other : Text)
        → text_eq id other ≡ false
        → lookup other after.entries ≡ lookup other index.entries)

found : {A : Type 0} (id : Text) (e : A) (m : Assoc A) → lookup id (insert id e m) ≡ some e
found id e m = lookup-insert id id e m ∙ (let r = text_eq_refl id in rw r refl)

-- Behind a post, the entry under the id has the agent and the body that were posted, and
-- supersedes just the ids that an entry under this id superseded before and those that were
-- posted; the entries under other ids are as they were.
pub post-Posted :
    (index : JoinIndex) (id agent body : Text) (supersedes : List Text)
    → Posted index id agent body supersedes (post index id agent body supersedes)
unfolding post
post-Posted index id agent body supersedes = (
  _,
  found id _ index.entries,
  refl,
  refl,
  λ x. add_new-has x (or_new id (lookup id index.entries)) supersedes,
  λ other n. lookup-insert id other _ index.entries ∙ (rw n refl),
)

is_superseded-lookup :
    (m : Assoc LiveJoinEntry) (id x : Text) {e : LiveJoinEntry}
    → lookup id m ≡ some e
    → has_text x e.supersedes ≡ true
    → is_superseded (values m) x ≡ true
unfolding lookup is_superseded
is_superseded-lookup [] id x h k = cc
is_superseded-lookup ((j, f) ∷ m) id x {e} h k = elim (Bool-cases (text_eq j id)) [
  | inl same ↦
      let p : f ≡ e = ground arith in
      let q : has_text x f.supersedes ≡ true =
        subst (λ (g : LiveJoinEntry). has_text x g.supersedes ≡ true) (sym p) k in
      ground (arith, q)
  | inr other ↦ ground (arith, is_superseded-lookup m id x {e = e} (ground arith) k)
]

retain-without :
    (gone : Text → Bool) (x : Text) (es : List LiveJoinEntry)
    → gone x ≡ true
    → any
        (λ (e : LiveJoinEntry). text_eq e.id x)
        (retain (λ (e : LiveJoinEntry). not (gone e.id)) es)
      ≡ false
retain-without gone x [] h = refl
retain-without gone x (e ∷ es) h = elim (Bool-cases (text_eq e.id x)) [
  | inl same ↦
      let q : gone e.id ≡ true =
        subst (λ (t : Text). gone t ≡ true) (sym ((text_eq_iff e.id x).0 same)) h in
      ground (arith, q, retain-without gone x es h)
  | inr other ↦ ground (arith, other, retain-without gone x es h)
]

-- No entry whose id a post supersedes is live behind it.
pub post-supersedes :
    (index : JoinIndex) (id agent body : Text) (supersedes : List Text) (x : Text)
    → has_text x supersedes ≡ true
    → any
        (λ (e : LiveJoinEntry). text_eq e.id x)
        (live_entries (post index id agent body supersedes))
      ≡ false
unfolding live_entries
post-supersedes index id agent body supersedes x h =
    let after = post index id agent body supersedes in
    let (e, at, _, _, sup, _) = post-Posted index id agent body supersedes in
    let k : has_text x e.supersedes ≡ true = ground (arith, sup x, h) in
    retain-without (is_superseded (values after.entries)) x (values (by_key after.entries))
      (is_superseded-lookup after.entries id x at k)

-- What a filter leaves does not depend on the order where it is one entry at most.
module _ (p : LiveJoinEntry → Bool) where
  retain-put_none :
      (k : Text) (e : LiveJoinEntry) (m : Assoc LiveJoinEntry)
      → p e ≡ false
      → retain p (values (put k e m)) ≡ retain p (values m)
  unfolding put
  retain-put_none k e [] h = rw h refl
  retain-put_none k e ((j, f) ∷ m) h = elim (Bool-cases (text_lt j k)) [
    | inl later ↦ rw later (let ih = retain-put_none k e m h in rw ih refl)
    | inr here ↦ rw here (rw h refl)
  ]

  retain-put_one :
      (k : Text) (e : LiveJoinEntry) (m : Assoc LiveJoinEntry)
      → p e ≡ true
      → retain p (values m) ≡ []
      → retain p (values (put k e m)) ≡ e ∷ []
  unfolding put
  retain-put_one k e [] h n = rw h refl
  retain-put_one k e ((j, f) ∷ m) h n = elim (Bool-cases (p f)) [
    | inl kept ↦ absurd (ground (arith, kept, n))
    | inr gone ↦
        let rest : retain p (values m) ≡ [] = ground (arith, gone, n) in
        elim (Bool-cases (text_lt j k)) [
          | inl later ↦ rw later (rw gone (retain-put_one k e m h rest))
          | inr here ↦ rw here (rw h (rw gone (ap (◌∷◌ e) rest)))
        ]
  ]

  retain-by_key_none :
      (m : Assoc LiveJoinEntry) → retain p (values m) ≡ [] → retain p (values (by_key m)) ≡ []
  unfolding by_key
  retain-by_key_none [] h = refl
  retain-by_key_none ((k, e) ∷ m) h = elim (Bool-cases (p e)) [
    | inl kept ↦ absurd (ground (arith, kept, h))
    | inr gone ↦
        retain-put_none k e (by_key m) gone ∙ retain-by_key_none m (ground (arith, gone, h))
  ]

  pub retain-by_key :
      (m : Assoc LiveJoinEntry) (e : LiveJoinEntry)
      → retain p (values m) ≡ e ∷ []
      → retain p (values (by_key m)) ≡ e ∷ []
  unfolding by_key
  retain-by_key [] e h = absurd cc
  retain-by_key ((k, f) ∷ m) e h = elim (Bool-cases (p f)) [
    | inl kept ↦
        let q : f ∷ retain p (values m) ≡ e ∷ [] = sym (rw kept refl) ∙ h in
        let same : f ≡ e = cc in
        let none_left : retain p (values m) ≡ [] = cc in
        retain-put_one k f (by_key m) kept (retain-by_key_none m none_left) ∙ ap (λ x. x ∷ []) same
    | inr gone ↦ retain-put_none k f (by_key m) gone ∙ retain-by_key m e (ground (arith, gone, h))
  ]
