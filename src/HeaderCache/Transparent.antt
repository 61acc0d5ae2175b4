-- ===== src/HeaderCache/Transparent.antt =====
-- The cache gives what a read of the file would give (src/runtime/task_state/header_cache.rs).
use vexcoder.Prelude.{
  zero, suc, ℕ, ◌≤◌, ◌≡◌, sym, subst, inl, inr, Option-cases, Option, none, some, arith, true,
  if_cases, length, Text,
}
use vexcoder.Prelude.Assoc.{
  Assoc, lookup, insert, AllValues, AllValues-insert, AllValues-remove, AllValues-lookup,
}
use vexcoder.HeaderCache.Lru.{
  max_header_cache_entries, FileFingerprint, same_fingerprint, CacheEntry, HeaderLruCache, tick,
  oldest, remove_oldest, evict, touch, lookup_cached, store, read_and_store, cached_task_header,
}
use vexcoder.HeaderCache.Bounds.{cached_task_header-bound}

same_fingerprint-eq : (a b : FileFingerprint) → same_fingerprint a b ≡ true → a ≡ b
unfolding same_fingerprint
same_fingerprint-eq a b h = ground arith

-- `parse` is what a read of the version of a file with this fingerprint gives.
module _ {H : Type 0} (parse : Text → FileFingerprint → Option H) where
  abbrev pub IsRead : Text → CacheEntry H → Type 0
  IsRead k e = parse k e.fingerprint ≡ some e.header

  -- Every entry holds what a read of its version gives, and the size is within the bound.
  abbrev pub IsSound : HeaderLruCache H → Type 0
  IsSound c = (length c.entries ≤ max_header_cache_entries) × AllValues IsRead c.entries

  evict-IsRead :
      (fuel : ℕ) (m : Assoc (CacheEntry H)) → AllValues IsRead m → AllValues IsRead (evict fuel m)
  unfolding evict
  evict-IsRead zero m h = h
  evict-IsRead (suc fuel) m h =
      if_cases (AllValues IsRead) _ _ _
        (λ _. evict-IsRead fuel (remove_oldest (oldest m) m) (less (oldest m))) (λ _. h)
    where
      less : (o : Option (Text × CacheEntry H)) → AllValues IsRead (remove_oldest o m)
      less none = h
      less (some (k, e)) = AllValues-remove IsRead k m h

  -- What the first half gives is sound, and a header that it gives is the one of the file.
  abbrev Given : Text → FileFingerprint → HeaderLruCache H × Option H → Type 0
  Given path fingerprint (c, none) = AllValues IsRead c.entries
  Given path fingerprint (c, some header) =
      AllValues IsRead c.entries × (parse path fingerprint ≡ some header)

  lookup_cached-Given :
      (c : HeaderLruCache H) (path : Text) (fingerprint : FileFingerprint)
      → AllValues IsRead c.entries
      → Given path fingerprint (lookup_cached c path fingerprint)
  unfolding lookup_cached
  lookup_cached-Given c path fingerprint h = elim (Option-cases (lookup path c.entries)) [
    | inl e ↦ rw e (AllValues-remove IsRead path c.entries h)
    | inr (old, e) ↦ rw e (
        if_cases (λ (o : Option (CacheEntry H)). Given path fingerprint (touch c path o))
          (same_fingerprint old.fingerprint fingerprint) _ _
          (λ same.
            let at : parse path old.fingerprint ≡ some old.header =
              AllValues-lookup IsRead path c.entries h e in
            let print = same_fingerprint-eq old.fingerprint fingerprint same in
            (
              AllValues-insert IsRead path (record old { last_access = (tick c).next_access })
                  c.entries at h,
              subst (λ (p : FileFingerprint). parse path p ≡ some old.header) print at,
            ))
          (λ other. AllValues-remove IsRead path c.entries h))
  ]

  store-IsRead :
      (c : HeaderLruCache H) (path : Text) (fingerprint : FileFingerprint) (millis : ℕ) (header : H)
      → parse path fingerprint ≡ some header
      → AllValues IsRead c.entries
      → AllValues IsRead (store c path fingerprint millis header).entries
  unfolding store
  store-IsRead c path fingerprint millis header p h =
      let entry : CacheEntry H = record {
        header = header;
        fingerprint = fingerprint;
        last_access = (tick c).next_access;
        updated_at = millis;
      } in
      let m = insert path entry c.entries in
      evict-IsRead (length m) m (AllValues-insert IsRead path entry c.entries p h)

  read_and_store-IsRead :
      (modified_millis : H → ℕ) (path : Text) (fingerprint : FileFingerprint)
      (found : HeaderLruCache H × Option H) (read : Option H)
      → read ≡ parse path fingerprint
      → Given path fingerprint found
      → let r = read_and_store modified_millis path fingerprint read found in
        AllValues IsRead r.0.entries × (r.1 ≡ parse path fingerprint)
  read_and_store-IsRead modified_millis path fingerprint (c, some header) read e (h, p) = (h, sym p)
  read_and_store-IsRead modified_millis path fingerprint (c, none) none e h = (h, e)
  read_and_store-IsRead modified_millis path fingerprint (c, none) (some header) e h =
      (store-IsRead c path fingerprint (modified_millis header) header (sym e) h, e)

  -- While a fingerprint determines what a read of the file gives, a call on a sound cache returns
  -- what a read would give now, whether it is a hit or not, and leaves a sound cache: at most 512
  -- entries, each of them what a read of its version of the file gives.
  pub cached_task_header-Transparent :
      (modified_millis : H → ℕ) (c : HeaderLruCache H) (path : Text) (fingerprint : FileFingerprint)
      (read : Option H)
      → read ≡ parse path fingerprint
      → IsSound c
      → let r = cached_task_header modified_millis c path (some fingerprint) read in
        IsSound r.0 × (r.1 ≡ parse path fingerprint)
  unfolding cached_task_header
  cached_task_header-Transparent modified_millis c path fingerprint read e (small, h) =
      let (kept, gives) =
        read_and_store-IsRead modified_millis path fingerprint (lookup_cached c path fingerprint)
          read e (lookup_cached-Given c path fingerprint h) in
      ((cached_task_header-bound modified_millis c path (some fingerprint) read small, kept), gives)
