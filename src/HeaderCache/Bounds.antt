-- ===== src/HeaderCache/Bounds.antt =====
-- The size of the cache
-- (src/runtime/task_state/header_cache.rs).
use vexcoder.Prelude.{
  ℕ, zero, suc, ◌≤◌, ◌≡◌, refl, sym, ◌⊎◌, true, inl, inr, Option, none, some, [], ◌∷◌, arith, ltb,
  ltb→le, ltb→lt, if_cases, Bool-cases, Option-cases, length, Text, text_eq, text_eq_iff,
}
use vexcoder.Prelude.Entries.{length-insert_known, length-remove, length-remove_known}
use vexcoder.Prelude.Assoc.{Assoc, lookup, insert, is_some}
use vexcoder.HeaderCache.Lru.{
  max_header_cache_entries, FileFingerprint, same_fingerprint, CacheEntry, HeaderLruCache, tick,
  is_older, keep_older, oldest, remove_oldest, evict, touch, lookup_cached, store, read_and_store,
  cached_task_header,
}

module _ {H : Type 0} where
  keep_older-some :
      (k : Text) (e : CacheEntry H) (o : Option (Text × CacheEntry H))
      → is_some (keep_older k e o) ≡ true
  keep_older-some k e none = refl
  keep_older-some k e (some (j, f)) = ground arith

  -- A map that is not empty has an oldest entry.
  oldest-some : (m : Assoc (CacheEntry H)) → 1 ≤ length m → is_some (oldest m) ≡ true
  unfolding oldest
  oldest-some [] h = absurd (omega arith)
  oldest-some ((k, e) ∷ m) h = keep_older-some k e (oldest m)

  -- The one kept is the new one or the old one.
  keep_older-from :
      (k : Text) (e : CacheEntry H) (o : Option (Text × CacheEntry H)) (i : Text) (g : CacheEntry H)
      → keep_older k e o ≡ some (i, g)
      → (i ≡ k) ⊎ (o ≡ some (i, g))
  keep_older-from k e none i g h = inl (ground arith)
  keep_older-from k e (some (j, f)) i g h = elim (Bool-cases (is_older f e)) [
    | inl older ↦ inr (ground (arith, older))
    | inr newer ↦ inl (ground (arith, newer))
  ]

  -- The oldest entry stands in the map.
  oldest-known :
      (m : Assoc (CacheEntry H)) (i : Text) (g : CacheEntry H)
      → oldest m ≡ some (i, g)
      → (f : CacheEntry H) × (lookup i m ≡ some f)
  unfolding oldest lookup
  oldest-known [] i g h = cc
  oldest-known ((k, e) ∷ m) i g h = elim (Bool-cases (text_eq k i)) [
    | inl here ↦ (e, rw here)
    | inr else_where ↦ elim (keep_older-from k e (oldest m) i g h) [
      | inl same ↦ absurd (let e2 = (text_eq_iff k i).1 (sym same) in cc)
      | inr there ↦ rw else_where (oldest-known m i g there)
    ]
  ]

  length-remove_oldest :
      (m : Assoc (CacheEntry H)) (o : Option (Text × CacheEntry H))
      → o ≡ oldest m
      → 1 ≤ length m
      → suc (length (remove_oldest o m)) ≤ length m
  length-remove_oldest m none h k =
      absurd (let some_is = oldest-some m k in ground (arith, some_is, h))
  length-remove_oldest m (some (i, g)) h k =
      let (f, at) = oldest-known m i g (sym h) in length-remove_known i m at

  -- Fuel for each entry brings the map within the bound.
  evict-bound :
      (fuel : ℕ) (m : Assoc (CacheEntry H))
      → length m ≤ fuel
      → length (evict fuel m) ≤ max_header_cache_entries
  unfolding evict
  evict-bound zero m h = omega (arith, h)
  evict-bound (suc fuel) m h =
      if_cases (λ (r : Assoc (CacheEntry H)). length r ≤ max_header_cache_entries)
        (ltb max_header_cache_entries (length m)) _ _
        (λ long.
          let less =
            length-remove_oldest m (oldest m) refl
              (omega (arith, ltb→lt max_header_cache_entries (length m) long)) in
          evict-bound fuel (remove_oldest (oldest m) m) (omega (arith, less, h)))
        (λ short. ltb→le max_header_cache_entries (length m) short)

  pub lookup_cached-bound :
      (c : HeaderLruCache H) (path : Text) (fingerprint : FileFingerprint)
      → length c.entries ≤ max_header_cache_entries
      → length (lookup_cached c path fingerprint).0.entries ≤ max_header_cache_entries
  unfolding lookup_cached
  lookup_cached-bound c path fingerprint h = elim (Option-cases (lookup path c.entries)) [
    | inl e ↦ rw e (omega (arith, h, length-remove path c.entries))
    | inr (old, e) ↦ rw e (
        if_cases
          (λ (o : Option (CacheEntry H)).
            length (touch c path o).0.entries ≤ max_header_cache_entries)
          (same_fingerprint old.fingerprint fingerprint) _ _
          (λ same. omega (arith, h, length-insert_known path _ c.entries e))
          (λ other. omega (arith, h, length-remove path c.entries)))
  ]

  pub store-bound :
      (c : HeaderLruCache H) (path : Text) (fingerprint : FileFingerprint) (millis : ℕ) (header : H)
      → length (store c path fingerprint millis header).entries ≤ max_header_cache_entries
  unfolding store
  store-bound c path fingerprint millis header =
      let entry : CacheEntry H = record {
        header = header;
        fingerprint = fingerprint;
        last_access = (tick c).next_access;
        updated_at = millis;
      } in
      let m = insert path entry c.entries in evict-bound (length m) m (omega arith)

  -- The number of entries stays within the bound of the cache.
  pub cached_task_header-bound :
      (modified_millis : H → ℕ) (c : HeaderLruCache H) (path : Text)
      (fingerprint : Option FileFingerprint) (read : Option H)
      → length c.entries ≤ max_header_cache_entries
      → length (cached_task_header modified_millis c path fingerprint read).0.entries
        ≤ max_header_cache_entries
  unfolding cached_task_header
  cached_task_header-bound modified_millis c path none read h = h
  cached_task_header-bound modified_millis c path (some fingerprint) read h =
      stored modified_millis path fingerprint read (lookup_cached c path fingerprint)
        (lookup_cached-bound c path fingerprint h)
    where
      stored :
          (modified : H → ℕ) (at : Text) (print : FileFingerprint) (r : Option H)
          (found : HeaderLruCache H × Option H)
          → length found.0.entries ≤ max_header_cache_entries
          → length (read_and_store modified at print r found).0.entries ≤ max_header_cache_entries
      stored modified at print r (d, some header) k = k
      stored modified at print none (d, none) k = k
      stored modified at print (some header) (d, none) k =
          store-bound d at print (modified header) header
