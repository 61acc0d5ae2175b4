-- ===== src/Team/Posting.antt =====
-- Posting summaries to a new index, and which of them are live (src/app/subtask_orchestrator/mod.rs).
use vexcoder.Prelude.{
  ◌≡◌, refl, sym, ap, subst, ◌∙◌, inl, inr, Bool, true, false, not, none, List, [], ◌∷◌, ◌++◌,
  append-nil, append_assoc, map, arith, All, retain, Bool-cases, Text, text_eq,
}
use vexcoder.Prelude.Assoc.{Assoc, lookup, insert}
use vexcoder.JoinIndex.Index.{
  LiveJoinEntry, JoinIndex, has_text, add_new, post, values, is_superseded, live_entries,
}
use vexcoder.JoinIndex.Live.{retain-by_key, add_new-has}
use vexcoder.Team.Join.{JoinSummary, post_all}
use vexcoder.Team.Order.{IsDistinct}

-- The entry of a summary that is posted to a new index.
abbrev pub entry_of : JoinSummary → LiveJoinEntry
entry_of x = record {
  id = x.message_id;
  agent_id = x.agent_id;
  body = x.summary;
  supersedes = add_new [] x.supersedes;
}

abbrev pub message_ids : List JoinSummary → List Text
message_ids = map (λ (x : JoinSummary). x.message_id)

-- The last summary supersedes those before it, and nothing supersedes the last one.
abbrev pub IsLast : List JoinSummary → JoinSummary → Type 0
IsLast front last =
    All (λ (x : JoinSummary). has_text x.message_id last.supersedes ≡ true) front
    × (has_text last.message_id last.supersedes ≡ false)
    × All (λ (x : JoinSummary). has_text last.message_id x.supersedes ≡ false) front

-- Keys that are new to a map.
abbrev pub Fresh : {A : Type 0} → Assoc A → List Text → Type 0
Fresh m = All (λ k. lookup k m ≡ none)

insert_new :
    {A : Type 0} (k : Text) (v : A) (m : Assoc A)
    → lookup k m ≡ none
    → insert k v m ≡ m ++ ((k, v) ∷ [])
unfolding lookup insert
insert_new k v [] h = refl
insert_new k v ((j, w) ∷ m) h = elim (Bool-cases (text_eq j k)) [
  | inl same ↦ absurd (ground (arith, same, h))
  | inr other ↦ rw other (let e = insert_new k v m (ground (arith, other, h)) in rw e refl)
]

lookup_add :
    {A : Type 0} (k j : Text) (v : A) (m : Assoc A)
    → lookup k m ≡ none
    → text_eq j k ≡ false
    → lookup k (m ++ ((j, v) ∷ [])) ≡ none
unfolding lookup
lookup_add k j v [] h n = rw n refl
lookup_add k j v ((i, w) ∷ m) h n = elim (Bool-cases (text_eq i k)) [
  | inl same ↦ absurd (ground (arith, same, h))
  | inr other ↦ rw other (lookup_add k j v m (ground (arith, other, h)) n)
]

Fresh-add :
    {A : Type 0} (j : Text) (v : A) (m : Assoc A) (ks : List Text)
    → Fresh m ks
    → All (λ k. text_eq j k ≡ false) ks
    → Fresh (m ++ ((j, v) ∷ [])) ks
Fresh-add j v m [] h n = tt
Fresh-add j v m (k ∷ ks) h n = (lookup_add k j v m h.0 n.0, Fresh-add j v m ks h.1 n.1)

values-append : (m n : Assoc LiveJoinEntry) → values (m ++ n) ≡ values m ++ values n
values-append [] n = refl
values-append ((k, e) ∷ m) n = ap (◌∷◌ e) (values-append m n)

post_new :
    (index : JoinIndex) (x : JoinSummary)
    → lookup x.message_id index.entries ≡ none
    → (post index x.message_id x.agent_id x.summary x.supersedes).entries
      ≡ index.entries ++ ((x.message_id, entry_of x) ∷ [])
unfolding post
post_new index x h = rw h (insert_new x.message_id (entry_of x) index.entries h)

-- Summaries with new identifiers are posted one behind the other.
pub post_all-entries :
    (index : JoinIndex) (xs : List JoinSummary)
    → Fresh index.entries (message_ids xs)
    → IsDistinct (message_ids xs)
    → values (post_all index xs).entries ≡ values index.entries ++ map entry_of xs
unfolding post_all post
post_all-entries index [] f d = sym (append-nil (values index.entries))
post_all-entries index (x ∷ xs) f d =
    let new = post_new index x f.0 in
    let rest =
      post_all-entries (post index x.message_id x.agent_id x.summary x.supersedes) xs
        (subst (λ m. Fresh m (message_ids xs)) (sym new)
          (Fresh-add x.message_id (entry_of x) index.entries (message_ids xs) f.1 d.0))
        d.1 in
    rest
    ∙ (ap (λ m. values m ++ map entry_of xs) new
        ∙ (ap (λ l. l ++ map entry_of xs)
              (values-append index.entries ((x.message_id, entry_of x) ∷ []))
            ∙ append_assoc (values index.entries) (entry_of x ∷ []) (map entry_of xs)))

All-imp :
    {A : Type 0} (P Q : A → Type 0) (xs : List A) → ((x : A) → P x → Q x) → All P xs → All Q xs
All-imp P Q [] f h = tt
All-imp P Q (x ∷ xs) f h = (f x h.0, All-imp P Q xs f h.1)

superseded_by_last :
    (i : Text) (front : List JoinSummary) (last : JoinSummary)
    → has_text i last.supersedes ≡ true
    → is_superseded (map entry_of (front ++ (last ∷ []))) i ≡ true
unfolding is_superseded
superseded_by_last i [] last h = ground (arith, add_new-has i [] last.supersedes, h)
superseded_by_last i (x ∷ front) last h = ground (arith, superseded_by_last i front last h)

not_superseded :
    (i : Text) (front : List JoinSummary) (last : JoinSummary)
    → All (λ (x : JoinSummary). has_text i x.supersedes ≡ false) front
    → has_text i last.supersedes ≡ false
    → is_superseded (map entry_of (front ++ (last ∷ []))) i ≡ false
unfolding is_superseded
not_superseded i [] last a h = ground (arith, add_new-has i [] last.supersedes, h)
not_superseded i (x ∷ front) last a h =
    ground (arith, add_new-has i [] x.supersedes, a.0, not_superseded i front last a.1 h)

keep_last :
    (p : LiveJoinEntry → Bool) (front : List JoinSummary) (last : JoinSummary)
    → All (λ (x : JoinSummary). p (entry_of x) ≡ false) front
    → p (entry_of last) ≡ true
    → retain p (map entry_of (front ++ (last ∷ []))) ≡ entry_of last ∷ []
keep_last p [] last a h = rw h refl
keep_last p (x ∷ front) last a h = rw a.0 (keep_last p front last a.1 h)

-- Of summaries with a last one, only the last one is live.
pub live-IsLast :
    (index : JoinIndex) (front : List JoinSummary) (last : JoinSummary)
    → values index.entries ≡ map entry_of (front ++ (last ∷ []))
    → IsLast front last
    → live_entries index ≡ entry_of last ∷ []
unfolding live_entries
live-IsLast index front last e l =
    let es = map entry_of (front ++ (last ∷ [])) in
    retain-by_key (λ (x : LiveJoinEntry). not (is_superseded (values index.entries) x.id))
      index.entries (entry_of last)
      (ap (λ es. retain (λ (x : LiveJoinEntry). not (is_superseded es x.id)) es) e
        ∙ keep_last (λ (x : LiveJoinEntry). not (is_superseded es x.id)) front last
            (All-imp _ _ front (λ x h. ap not (superseded_by_last x.message_id front last h)) l.0)
            (ap not (not_superseded last.message_id front last l.2 l.1)))
