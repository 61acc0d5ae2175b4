-- ===== src/ContextCache/Read.antt =====
-- The cache gives the content that a read of the file would give (src/runtime/context_cache.rs).
use vexcoder.Prelude.{
  ℕ, zero, suc, ◌^◌, ◌≤◌, ◌≡◌, refl, sym, ◌∙◌, subst, true, inl, inr, Option, none, some, arith,
  ltb, length, if_cases, Option-cases, Text, byte_len,
}
use vexcoder.Prelude.Assoc.{
  lookup, insert, AllValues, AllValues-insert, AllValues-remove, AllValues-lookup,
}
use vexcoder.ContextCache.Cache.{
  max_cache_file_bytes, CachedFileRead, FileFingerprint, is_same_version, CacheEntry, ContextCache,
  next_access_tick, least_recent, remove_entry, remove_least, is_too_large, evict_by, hit_or_drop,
  try_read_from_cache, insert_into_cache, Found, refused, absent, directory, unknown_version, file,
  uncached, read_through, read_cached_file,
}
use vexcoder.ContextCache.Account.{IsSound, try_read_from_cache-IsSound, insert_into_cache-IsSound}

is_same_version-eq : (a b : FileFingerprint) → is_same_version a b ≡ true → a ≡ b
unfolding is_same_version
is_same_version-eq a b h = ground arith

-- `version` is the content of the version of a file with this fingerprint.
module _ (version : Text → FileFingerprint → Option Text) where
  abbrev pub IsOf : Text → CacheEntry → Type 0
  IsOf path e = version path e.fingerprint ≡ some e.content

  -- The cache is within its bounds, and every entry holds what a read of its version gives.
  abbrev pub IsFaithful : ContextCache → Type 0
  IsFaithful c = IsSound c × AllValues IsOf c.entries

  remove_entry-IsOf :
      (c : ContextCache) (path : Text)
      → AllValues IsOf c.entries
      → AllValues IsOf (remove_entry c path).entries
  unfolding remove_entry
  remove_entry-IsOf c path h = AllValues-remove IsOf path c.entries h

  remove_least-IsOf :
      (c : ContextCache) (o : Option (Text × CacheEntry))
      → AllValues IsOf c.entries
      → AllValues IsOf (remove_least o c).entries
  remove_least-IsOf c none h = h
  remove_least-IsOf c (some (path, e)) h = remove_entry-IsOf c path h

  evict_by-IsOf :
      (fuel : ℕ) (c : ContextCache)
      → AllValues IsOf c.entries
      → AllValues IsOf (evict_by fuel c).entries
  unfolding evict_by
  evict_by-IsOf zero c h = h
  evict_by-IsOf (suc fuel) c h =
      if_cases (λ (r : ContextCache). AllValues IsOf r.entries) (is_too_large c) _ _
        (λ _.
          evict_by-IsOf fuel (remove_least (least_recent c.entries) c)
            (remove_least-IsOf c (least_recent c.entries) h))
        (λ _. h)

  insert_into_cache-IsOf :
      (c : ContextCache) (path : Text) (fingerprint : FileFingerprint) (content : Text)
      → version path fingerprint ≡ some content
      → AllValues IsOf c.entries
      → AllValues IsOf (insert_into_cache c path fingerprint content).entries
  unfolding insert_into_cache
  insert_into_cache-IsOf c path fingerprint content e h =
      let less = remove_entry c path in
      let entry : CacheEntry = record {
        content = content;
        fingerprint = fingerprint;
        last_access = (next_access_tick less).next_access;
      } in
      evict_by-IsOf (length (insert path entry less.entries)) _
        (AllValues-insert IsOf path entry less.entries e (remove_entry-IsOf c path h))

  -- What the first half gives is of this version.
  abbrev Given : Text → FileFingerprint → ContextCache × Option Text → Type 0
  Given path fingerprint (c, none) = AllValues IsOf c.entries
  Given path fingerprint (c, some content) =
      AllValues IsOf c.entries × (version path fingerprint ≡ some content)

  try_read_from_cache-Given :
      (c : ContextCache) (path : Text) (fingerprint : FileFingerprint)
      → AllValues IsOf c.entries
      → Given path fingerprint (try_read_from_cache c path fingerprint)
  unfolding try_read_from_cache
  try_read_from_cache-Given c path fingerprint h = elim (Option-cases (lookup path c.entries)) [
    | inl e ↦ rw e (remove_entry-IsOf c path h)
    | inr (old, e) ↦ rw e (
        if_cases (λ (o : Option CacheEntry). Given path fingerprint (hit_or_drop c path o))
          (is_same_version old.fingerprint fingerprint) _ _
          (λ same.
            let at : version path old.fingerprint ≡ some old.content =
              AllValues-lookup IsOf path c.entries h e in
            let now = is_same_version-eq old.fingerprint fingerprint same in
            (
              AllValues-insert IsOf path
                  (record old { last_access = (next_access_tick c).next_access }) c.entries at h,
              subst (λ (p : FileFingerprint). version path p ≡ some old.content) now at,
            ))
          (λ other. remove_entry-IsOf c path h))
  ]

  -- What a call returns, but for the mark of a hit
  abbrev pub content_of : Option CachedFileRead → Option Text
  content_of none = none
  content_of (some r) = some r.content

  -- A read of a version fits in the address space.
  abbrev pub Fits : Option Text → Type 0
  Fits none = Unit
  Fits (some content) = byte_len content ≤ 2 ^ 63

  -- The version that is read is the one that was found, where there is one.
  abbrev pub IsCurrent : Found → Option Text → Type 0
  IsCurrent (file path fingerprint) read = read ≡ version path fingerprint
  IsCurrent _ read = Unit

  abbrev pub answer : Found → Option Text → Option Text
  answer refused read = none
  answer _ read = read

  abbrev Answered : Option Text → ContextCache × Option CachedFileRead → Type 0
  Answered read r = IsFaithful r.0 × (content_of r.1 ≡ read)

  uncached-Answered :
      (c : ContextCache) (read : Option Text) → IsFaithful c → Answered read (uncached c read)
  uncached-Answered c none h = (h, refl)
  uncached-Answered c (some content) h = (h, refl)

  read_through-Answered :
      (path : Text) (fingerprint : FileFingerprint) (read : Option Text)
      (found : ContextCache × Option Text)
      → Fits read
      → read ≡ version path fingerprint
      → IsSound found.0
      → Given path fingerprint found
      → Answered read (read_through path fingerprint read found)
  read_through-Answered path fingerprint read (c, some content) small e s (h, p) =
      ((s, h), sym (e ∙ p))
  read_through-Answered path fingerprint none (c, none) small e s h = ((s, h), refl)
  read_through-Answered path fingerprint (some content) (c, none) small e s h = (
    (
      insert_into_cache-IsSound c path fingerprint content small s,
      insert_into_cache-IsOf c path fingerprint content (sym e) h,
    ),
    refl,
  )

  -- While a fingerprint determines the content of a file, whose bytes fit in the address space,
  -- a call returns what a read would return now, or an error where the path is refused, whether
  -- it is a hit or not. From a cache in which no path stands twice, the total is that of the
  -- contents, at most 64 entries and 2 MiB are held, and each entry is the content of its
  -- version, it leaves such a cache.
  pub read_cached_file-Transparent :
      (c : ContextCache) (found : Found) (read : Option Text)
      → Fits read
      → IsCurrent found read
      → IsFaithful c
      → let r = read_cached_file c found read in
        IsFaithful r.0 × (content_of r.1 ≡ answer found read)
  unfolding read_cached_file
  read_cached_file-Transparent c refused read small now h = (h, refl)
  read_cached_file-Transparent c absent read small now h = uncached-Answered c read h
  read_cached_file-Transparent c directory read small now h = uncached-Answered c read h
  read_cached_file-Transparent c unknown_version read small now h = uncached-Answered c read h
  read_cached_file-Transparent c (file path fingerprint) read small now (s, h) =
      if_cases (Answered read) (ltb max_cache_file_bytes fingerprint.file_len) _ _
        (λ large. uncached-Answered c read (s, h))
        (λ fits.
          read_through-Answered path fingerprint read (try_read_from_cache c path fingerprint) small
            now (try_read_from_cache-IsSound c path fingerprint s)
            (try_read_from_cache-Given c path fingerprint h))
