-- ===== src/ContextCache/Account.antt =====
-- The bytes that the cache counts are those that it holds, and stay within its bounds
-- (src/runtime/context_cache.rs).
use vexcoder.Prelude.{
  ℕ, zero, suc, ◌^◌, ◌≤◌, ◌≡◌, refl, sym, ◌∙◌, true, false, ◌||◌, inl, inr, ◌⊎◌, Option, none, some,
  [], ◌∷◌, arith, ltb, ltb→le, ltb→lt, if_cases, Bool-cases, Option-cases, length, Text, byte_len,
  text_eq, text_eq_iff, text_eq_refl, saturating_add, saturating_add_lem,
}
use vexcoder.Prelude.Assoc.{
  Assoc, lookup, insert, is_some, IsUnique, insert-IsUnique, remove-IsUnique, lookup-remove,
}
use vexcoder.Prelude.Entries.{
  length-insert_known, length-remove, length-remove_known, sum_values, sum_values-remove,
  sum_values-insert_absent, sum_values-insert_known, remove-absent,
}
use vexcoder.ContextCache.Cache.{
  max_cache_entries, max_cache_total_bytes, FileFingerprint, is_same_version, CacheEntry,
  ContextCache, next_access_tick, keep_least, least_recent, remove_entry, remove_least,
  is_too_large, evict_by, hit_or_drop, try_read_from_cache, insert_into_cache,
}

abbrev pub held : Assoc CacheEntry → ℕ
held = sum_values (λ e. byte_len e.content)

-- No path stands twice, and the total is that of the contents.
abbrev pub IsCounted : ContextCache → Type 0
IsCounted c = IsUnique c.entries × (c.total_bytes ≡ held c.entries)

abbrev pub IsSmall : ContextCache → Type 0
IsSmall c = (length c.entries ≤ max_cache_entries) × (c.total_bytes ≤ max_cache_total_bytes)

remove_entry-IsCounted :
    (c : ContextCache) (path : Text) → IsCounted c → IsCounted (remove_entry c path)
unfolding remove_entry
remove_entry-IsCounted c path (u, e) = elim (Option-cases (lookup path c.entries)) [
  | inl h ↦
      let same = remove-absent path c.entries h in
      (remove-IsUnique path c.entries u, rw (h, same) (omega (arith, e)))
  | inr (old, h) ↦ (
    remove-IsUnique path c.entries u,
    rw h (omega (arith, e, sum_values-remove (λ v. byte_len v.content) path c.entries u h)),
  )
]

keep_least-some :
    (k : Text) (e : CacheEntry) (o : Option (Text × CacheEntry)) → is_some (keep_least k e o) ≡ true
keep_least-some k e none = refl
keep_least-some k e (some (j, f)) = ground arith

least_recent-some : (m : Assoc CacheEntry) → 1 ≤ length m → is_some (least_recent m) ≡ true
unfolding least_recent
least_recent-some [] h = absurd (omega arith)
least_recent-some ((k, e) ∷ m) h = keep_least-some k e (least_recent m)

keep_least-from :
    (k : Text) (e : CacheEntry) (o : Option (Text × CacheEntry)) (i : Text) (g : CacheEntry)
    → keep_least k e o ≡ some (i, g)
    → (i ≡ k) ⊎ (o ≡ some (i, g))
keep_least-from k e none i g h = inl (ground arith)
keep_least-from k e (some (j, f)) i g h = elim (Bool-cases (ltb f.last_access e.last_access)) [
  | inl older ↦ inr (ground (arith, older))
  | inr newer ↦ inl (ground (arith, newer))
]

least_recent-known :
    (m : Assoc CacheEntry) (i : Text) (g : CacheEntry)
    → least_recent m ≡ some (i, g)
    → (f : CacheEntry) × (lookup i m ≡ some f)
unfolding least_recent lookup
least_recent-known [] i g h = cc
least_recent-known ((k, e) ∷ m) i g h = elim (Bool-cases (text_eq k i)) [
  | inl here ↦ (e, rw here)
  | inr away ↦ elim (keep_least-from k e (least_recent m) i g h) [
    | inl same ↦ absurd (let e2 = (text_eq_iff k i).1 (sym same) in cc)
    | inr there ↦ rw away (least_recent-known m i g there)
  ]
]

remove_least-shorter :
    (c : ContextCache) (o : Option (Text × CacheEntry))
    → o ≡ least_recent c.entries
    → 1 ≤ length c.entries
    → suc (length (remove_least o c).entries) ≤ length c.entries
unfolding remove_entry
remove_least-shorter c none h k =
    absurd (let there = least_recent-some c.entries k in ground (arith, there, h))
remove_least-shorter c (some (i, g)) h k =
    let (f, at) = least_recent-known c.entries i g (sym h) in length-remove_known i c.entries at

remove_least-IsCounted :
    (c : ContextCache) (o : Option (Text × CacheEntry)) → IsCounted c → IsCounted (remove_least o c)
remove_least-IsCounted c none h = h
remove_least-IsCounted c (some (i, g)) h = remove_entry-IsCounted c i h

-- An empty cache is not too large.
too_large-some : (c : ContextCache) → IsCounted c → is_too_large c ≡ true → 1 ≤ length c.entries
too_large-some c h e = elim (Bool-cases (ltb 0 (length c.entries))) [
  | inl some_there ↦ ltb→lt 0 (length c.entries) some_there
  | inr empty ↦ absurd (none_left c.entries c.total_bytes h.1 (ltb→le 0 (length c.entries) empty) e)
]
  where
    none_left :
        (m : Assoc CacheEntry) (n : ℕ)
        → n ≡ held m
        → length m ≤ 0
        → (ltb max_cache_entries (length m) || ltb max_cache_total_bytes n) ≡ true
        → ⊥
    none_left [] n p k t = ground (arith, p)
    none_left (x ∷ m) n p k t = absurd (omega (arith, k))

fits-IsSmall : (c : ContextCache) → is_too_large c ≡ false → IsSmall c
fits-IsSmall c e = (
  ltb→le max_cache_entries (length c.entries) (ground arith),
  ltb→le max_cache_total_bytes c.total_bytes (ground arith),
)

-- Fuel for each entry brings the cache within its bounds.
evict_by-IsSmall :
    (fuel : ℕ) (c : ContextCache)
    → IsCounted c
    → length c.entries ≤ fuel
    → IsCounted (evict_by fuel c) × IsSmall (evict_by fuel c)
unfolding evict_by
evict_by-IsSmall zero c h k = elim (Bool-cases (is_too_large c)) [
  | inl large ↦ absurd (omega (arith, k, too_large-some c h large))
  | inr fits ↦ (h, fits-IsSmall c fits)
]
evict_by-IsSmall (suc fuel) c h k =
    if_cases (λ (r : ContextCache). IsCounted r × IsSmall r) (is_too_large c) _ _
      (λ large.
        let less =
          remove_least-shorter c (least_recent c.entries) refl (too_large-some c h large) in
        evict_by-IsSmall fuel (remove_least (least_recent c.entries) c)
          (remove_least-IsCounted c (least_recent c.entries) h) (omega (arith, less, k)))
      (λ fits. (h, fits-IsSmall c fits))

-- The total stays that of the contents, and within the bounds.
abbrev pub IsSound : ContextCache → Type 0
IsSound c = IsCounted c × IsSmall c

remove_entry-IsSound : (c : ContextCache) (path : Text) → IsSound c → IsSound (remove_entry c path)
remove_entry-IsSound c path (h, (few, light)) = (
  remove_entry-IsCounted c path h,
  unfold remove_entry in (omega (arith, few, length-remove path c.entries), omega (arith, light)),
)

pub try_read_from_cache-IsSound :
    (c : ContextCache) (path : Text) (fingerprint : FileFingerprint)
    → IsSound c
    → IsSound (try_read_from_cache c path fingerprint).0
unfolding try_read_from_cache
try_read_from_cache-IsSound c path fingerprint h = elim (Option-cases (lookup path c.entries)) [
  | inl e ↦ rw e (remove_entry-IsSound c path h)
  | inr (old, e) ↦ rw e (
      if_cases (λ (o : Option CacheEntry). IsSound (hit_or_drop c path o).0)
        (is_same_version old.fingerprint fingerprint) _ _
        (λ same.
          let touched : CacheEntry = record old {
            last_access = (next_access_tick c).next_access;
          } in
          let sum =
            sum_values-insert_known (λ v. byte_len v.content) path touched c.entries e refl in
          (
            (insert-IsUnique path touched c.entries h.0.0, omega (arith, sum, h.0.1)),
            (omega (arith, h.1, length-insert_known path touched c.entries e), h.1.1),
          ))
        (λ other. remove_entry-IsSound c path h))
]

-- The file's bytes fit in the address space.
pub insert_into_cache-IsSound :
    (c : ContextCache) (path : Text) (fingerprint : FileFingerprint) (content : Text)
    → byte_len content ≤ 2 ^ 63
    → IsSound c
    → IsSound (insert_into_cache c path fingerprint content)
unfolding insert_into_cache
insert_into_cache-IsSound c path fingerprint content fits h =
    let less = remove_entry c path in
    let (counted, small) = remove_entry-IsSound c path h in
    let known = text_eq_refl path in
    let absent : lookup path less.entries ≡ none =
      unfold remove_entry in (lookup-remove path path c.entries ∙ (rw known refl)) in
    let t = (next_access_tick less).next_access in
    let entry : CacheEntry = record {
      content = content;
      fingerprint = fingerprint;
      last_access = t;
    } in
    let filled : ContextCache = record {
      entries = insert path entry less.entries;
      total_bytes = saturating_add less.total_bytes (byte_len content);
      next_access = t;
    } in
    let total : filled.total_bytes ≡ held filled.entries = omega (
      arith,
      fits,
      counted.1,
      small,
      saturating_add_lem less.total_bytes (byte_len content),
      sum_values-insert_absent (λ v. byte_len v.content) path entry less.entries absent,
    ) in
    evict_by-IsSmall (length filled.entries) filled
      (insert-IsUnique path entry less.entries counted.0, total) (omega arith)
