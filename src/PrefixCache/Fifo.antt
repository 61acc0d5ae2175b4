-- ===== src/PrefixCache/Fifo.antt =====
-- The cache is a queue: a full one forgets its oldest prefix (src/runtime/multiplex_prefix.rs).
use vexcoder.Prelude.{
  ℕ, zero, suc, ◌-◌, ◌≤◌, ◌≡◌, refl, sym, ap, ◌∙◌, subst, false, inl, inr, Option, none, some, List,
  [], ◌∷◌, ◌++◌, arith, leb, leb→le, leb→lt, if◌then◌else◌, Bool-cases, Option-cases, length, drop,
  length-append, length-drop, Text, text_eq_refl,
}
use vexcoder.Prelude.Assoc.{
  Assoc, lookup, contains_key, insert, remove, keys, IsUnique, lookup-insert, insert-IsUnique,
}
use vexcoder.PrefixCache.Manager.{MultiplexPrefixManager, make_room, insert_prefix, get}

abbrev Entries : Type 0
Entries = Assoc (List ℕ)

-- The order of insertion is that of the entries, no fingerprint stands twice, and the capacity holds.
abbrev pub IsValid : MultiplexPrefixManager → Type 0
IsValid p =
    (p.insertion_order ≡ keys p.entries)
    × IsUnique p.entries
    × (length p.entries ≤ p.capacity)
    × (1 ≤ p.capacity)

-- The queue that the cache implements, its oldest entry first.
abbrev pub push_bounded : ℕ → Text → List ℕ → Assoc (List ℕ) → Assoc (List ℕ)
push_bounded capacity fingerprint blob queue =
    if contains_key fingerprint queue
    then queue
    else drop (suc (length queue) - capacity) queue ++ ((fingerprint, blob) ∷ [])

remove-absent : (k : Text) (m : Entries) → lookup k m ≡ none → remove k m ≡ m
unfolding lookup remove
remove-absent k [] h = refl
remove-absent k ((j, v) ∷ m) h = ground (arith, remove-absent k m)

remove-first : (k : Text) (v : List ℕ) (m : Entries) → lookup k m ≡ none → remove k ((k, v) ∷ m) ≡ m
unfolding remove
remove-first k v m h = ground (arith, text_eq_refl k, remove-absent k m h)

insert-absent :
    (k : Text) (v : List ℕ) (m : Entries) → lookup k m ≡ none → insert k v m ≡ m ++ ((k, v) ∷ [])
unfolding lookup insert
insert-absent k v [] h = refl
insert-absent k v ((j, w) ∷ m) h = ground (arith, insert-absent k v m)

lookup-drop : (k : Text) (n : ℕ) (m : Entries) → lookup k m ≡ none → lookup k (drop n m) ≡ none
unfolding lookup
lookup-drop k zero m h = h
lookup-drop k (suc n) [] h = h
lookup-drop k (suc n) ((j, v) ∷ m) h = lookup-drop k n m (ground arith)

IsUnique-drop : (n : ℕ) (m : Entries) → IsUnique m → IsUnique (drop n m)
IsUnique-drop zero m u = u
IsUnique-drop (suc n) [] u = u
IsUnique-drop (suc n) ((j, v) ∷ m) u = IsUnique-drop n m u.1

keys-append : (a b : Entries) → keys (a ++ b) ≡ keys a ++ keys b
keys-append [] b = refl
keys-append ((j, v) ∷ a) b = ap (◌∷◌ j) (keys-append a b)

length-keys : (m : Entries) → length (keys m) ≡ length m
length-keys [] = refl
length-keys ((j, v) ∷ m) = ap suc (length-keys m)

-- Room is made by dropping the oldest entries, as many as are too many.
make_room-drop :
    (capacity : ℕ) (m : Entries)
    → 1 ≤ capacity
    → IsUnique m
    → let n = suc (length m) - capacity in
      make_room capacity (keys m) m ≡ (keys (drop n m), drop n m)
unfolding make_room
make_room-drop capacity [] h u = let e : 1 - capacity ≡ 0 = omega (arith, h) in rw e refl
make_room-drop capacity ((k, v) ∷ m) h u = elim (Bool-cases (leb capacity (length (k ∷ keys m)))) [
  | inl full ↦
      let e : suc (suc (length m)) - capacity ≡ suc (suc (length m) - capacity) =
        omega (arith, leb→le capacity (length (k ∷ keys m)) full, length-keys m) in
      rw (full, e, remove-first k v m u.0) (make_room-drop capacity m h u.1)
  | inr free ↦
      let e : suc (suc (length m)) - capacity ≡ 0 =
        omega (arith, leb→lt capacity (length (k ∷ keys m)) free, length-keys m) in
      rw (free, e) refl
]

contains_key-none : (k : Text) (m : Entries) → contains_key k m ≡ false → lookup k m ≡ none
unfolding contains_key
contains_key-none k m h = ground arith

made_room :
    (p : MultiplexPrefixManager)
    → IsValid p
    → let queue = drop (suc (length p.entries) - p.capacity) p.entries in
      make_room p.capacity p.insertion_order p.entries ≡ (keys queue, queue)
made_room p (order, u, fits, room) =
    ap (λ (o : List Text). make_room p.capacity o p.entries) order
    ∙ make_room-drop p.capacity p.entries room u

inserted :
    (p : MultiplexPrefixManager) (k : Text) (blob : List ℕ)
    → IsValid p
    → contains_key k p.entries ≡ false
    → insert k blob (make_room p.capacity p.insertion_order p.entries).1
      ≡ drop (suc (length p.entries) - p.capacity) p.entries ++ ((k, blob) ∷ [])
inserted p k blob v new =
    let n = suc (length p.entries) - p.capacity in
    let absent = lookup-drop k n p.entries (contains_key-none k p.entries new) in
    ap (λ (r : List Text × Entries). insert k blob r.1) (made_room p v)
    ∙ insert-absent k blob (drop n p.entries) absent

-- From a valid cache, with no fingerprint twice, its order of insertion that of its entries and
-- within a capacity of at least one, an insertion leaves the entries of a queue that drops its
-- oldest ones to stay within the capacity, or the same entries if the fingerprint was there; and
-- the cache is valid again.
pub insert_prefix-Refines :
    (p : MultiplexPrefixManager) (fingerprint : Text) (blob : List ℕ)
    → IsValid p
    → let q = insert_prefix p fingerprint blob in
      (q.entries ≡ push_bounded p.capacity fingerprint blob p.entries) × IsValid q
unfolding insert_prefix
insert_prefix-Refines p k blob v = elim (Bool-cases (contains_key k p.entries)) [
  | inl known ↦ rw known (refl, v)
  | inr new ↦
      let n = suc (length p.entries) - p.capacity in
      let kept = drop n p.entries in
      let e = inserted p k blob v new in
      let names : keys (kept ++ ((k, blob) ∷ [])) ≡ keys kept ++ (k ∷ []) =
        keys-append kept ((k, blob) ∷ []) in
      let order = ap (λ (r : List Text × Entries). r.0 ++ (k ∷ [])) (made_room p v) in
      let absent = lookup-drop k n p.entries (contains_key-none k p.entries new) in
      rw new (
        e,
        (
          order ∙ sym names ∙ sym (ap (λ (m : Entries). keys m) e),
          subst (λ (m : Entries). IsUnique m) (insert-absent k blob kept absent ∙ sym e)
              (insert-IsUnique k blob kept (IsUnique-drop n p.entries v.1)),
          subst (λ (m : Entries). length m ≤ p.capacity) (sym e)
              (omega (arith, length-append kept ((k, blob) ∷ []), length-drop n p.entries, v.2)),
          v.3,
        ),
      )
]

-- What `get` gives behind `insert`: the blob that is stored already, or the new one.
abbrev pub stored_or : List ℕ → Option (List ℕ) → Option (List ℕ)
stored_or blob none = some blob
stored_or blob (some old) = some old

pub get-insert_prefix :
    (p : MultiplexPrefixManager) (fingerprint : Text) (blob : List ℕ)
    → get (insert_prefix p fingerprint blob) fingerprint ≡ stored_or blob (get p fingerprint)
unfolding get insert_prefix contains_key
get-insert_prefix p k blob = elim (Option-cases (lookup k p.entries)) [
  | inl e ↦ rw e (
      let known = text_eq_refl k in
      lookup-insert k k blob (make_room p.capacity p.insertion_order p.entries).1 ∙ (rw known refl))
  | inr (old, e) ↦ rw e e
]
