-- ===== src/HeaderCache/Lru.antt =====
-- `HeaderLruCache` and `cached_task_header`, for any type of headers. What the file system gives, the
-- fingerprint and the parsed header, comes in as arguments; `none` is an error. The lock is
-- released between the two halves, which are `lookup_cached` and `store`.
use vexcoder.Prelude.{
  ℕ, zero, suc, Bool, ◌&&◌, ◌||◌, Option, none, some, [], ◌∷◌, ltb, ◌==◌, if◌then◌else◌, length,
  Text, saturating_add,
}
use vexcoder.Prelude.Assoc.{Assoc, lookup, insert, remove}

abbrev pub max_header_cache_entries : ℕ
max_header_cache_entries = 512

-- Times are numbers.
pub record FileFingerprint : Type 0 where
  pub file_len : ℕ
  pub modified : ℕ

unfoldable pub same_fingerprint : FileFingerprint → FileFingerprint → Bool
same_fingerprint a b = a.file_len == b.file_len && a.modified == b.modified

pub record CacheEntry (H : Type 0) : Type 0 where
  pub header : H
  pub fingerprint : FileFingerprint
  pub last_access : ℕ
  pub updated_at : ℕ

pub record HeaderLruCache (H : Type 0) : Type 0 where
  pub entries : Assoc (CacheEntry H)
  pub next_access : ℕ

module _ {H : Type 0} where
  unfoldable pub tick : HeaderLruCache H → HeaderLruCache H
  tick c = record c { next_access = saturating_add c.next_access 1 }

  -- The order of the pairs `(last_access, updated_at)`
  unfoldable pub is_older : CacheEntry H → CacheEntry H → Bool
  is_older a b =
      ltb a.last_access b.last_access
      || (a.last_access == b.last_access && ltb a.updated_at b.updated_at)

  -- `min_by_key`: the first one of the smallest
  abbrev pub keep_older :
      Text → CacheEntry H → Option (Text × CacheEntry H) → Option (Text × CacheEntry H)
  keep_older k e none = some (k, e)
  keep_older k e (some (j, f)) = if is_older f e then some (j, f) else some (k, e)

  unfoldable pub oldest : Assoc (CacheEntry H) → Option (Text × CacheEntry H)
  unfolding is_older
  oldest [] = none
  oldest ((k, e) ∷ m) = keep_older k e (oldest m)

  abbrev pub remove_oldest :
      Option (Text × CacheEntry H) → Assoc (CacheEntry H) → Assoc (CacheEntry H)
  remove_oldest none m = m
  remove_oldest (some (k, e)) m = remove k m

  -- `evict_lru`. A turn of its loop takes out an entry, so that the number of entries is enough fuel.
  unfoldable pub evict : ℕ → Assoc (CacheEntry H) → Assoc (CacheEntry H)
  unfolding oldest
  evict zero m = m
  evict (suc fuel) m =
      let less = evict fuel (remove_oldest (oldest m) m) in
      if ltb max_header_cache_entries (length m) then less else m

  unfoldable pub evict_lru : HeaderLruCache H → HeaderLruCache H
  unfolding evict
  evict_lru c = record c { entries = evict (length c.entries) c.entries }

  -- The entry, if its fingerprint is the file's
  abbrev pub fresh_entry : FileFingerprint → Option (CacheEntry H) → Option (CacheEntry H)
  fresh_entry fingerprint none = none
  fresh_entry fingerprint (some e) =
      if same_fingerprint e.fingerprint fingerprint then some e else none

  -- The first half: a hit is touched, and an entry that is out of date is taken out.
  abbrev pub touch : HeaderLruCache H → Text → Option (CacheEntry H) → HeaderLruCache H × Option H
  touch c path none = (record c { entries = remove path c.entries }, none)
  touch c path (some e) =
      let t = (tick c).next_access in
      (
        record { entries = insert path (record e { last_access = t }) c.entries; next_access = t },
        some e.header,
      )

  unfoldable pub lookup_cached :
      HeaderLruCache H → Text → FileFingerprint → HeaderLruCache H × Option H
  unfolding tick same_fingerprint
  lookup_cached c path fingerprint = touch c path (fresh_entry fingerprint (lookup path c.entries))

  -- The second half: a header that was read is stored.
  unfoldable pub store : HeaderLruCache H → Text → FileFingerprint → ℕ → H → HeaderLruCache H
  unfolding tick evict_lru
  store c path fingerprint modified_millis header =
      let t = (tick c).next_access in
      let entry : CacheEntry H = record {
        header = header;
        fingerprint = fingerprint;
        last_access = t;
        updated_at = modified_millis;
      } in
      evict_lru (record { entries = insert path entry c.entries; next_access = t })

  abbrev pub read_and_store :
      (H → ℕ)
      → Text
      → FileFingerprint
      → Option H
      → HeaderLruCache H × Option H
      → HeaderLruCache H × Option H
  read_and_store modified_millis path fingerprint read (c, some header) = (c, some header)
  read_and_store modified_millis path fingerprint none (c, none) = (c, none)
  read_and_store modified_millis path fingerprint (some header) (c, none) =
      (store c path fingerprint (modified_millis header) header, some header)

  unfoldable pub cached_task_header :
      (H → ℕ)
      → HeaderLruCache H
      → Text
      → Option FileFingerprint
      → Option H
      → HeaderLruCache H × Option H
  unfolding lookup_cached store
  cached_task_header modified_millis c path none read = (c, none)
  cached_task_header modified_millis c path (some fingerprint) read =
      read_and_store modified_millis path fingerprint read (lookup_cached c path fingerprint)
