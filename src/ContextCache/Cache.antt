-- ===== src/ContextCache/Cache.antt =====
-- `ContextCache` and `read_cached_file`. What the file system gives comes in as arguments; the lock
-- is released between the two halves, `try_read_from_cache` and `insert_into_cache`. Times are numbers,
-- and paths are texts.
use vexcoder.Prelude.{
  ℕ, zero, suc, ◌-◌, ◌*◌, Bool, true, false, ◌&&◌, ◌||◌, Option, none, some, [], ◌∷◌, ltb, ◌==◌,
  if◌then◌else◌, length, Text, byte_len, saturating_add,
}
use vexcoder.Prelude.Assoc.{Assoc, lookup, insert, remove}

abbrev pub max_cache_entries : ℕ
max_cache_entries = 64

abbrev pub max_cache_total_bytes : ℕ
max_cache_total_bytes = 2 * 1024 * 1024

abbrev pub max_cache_file_bytes : ℕ
max_cache_file_bytes = 64 * 1024

pub record CachedFileRead : Type 0 where
  pub content : Text
  pub cache_hit : Bool

pub record FileFingerprint : Type 0 where
  pub file_len : ℕ
  pub modified : ℕ

unfoldable pub is_same_version : FileFingerprint → FileFingerprint → Bool
is_same_version a b = a.file_len == b.file_len && a.modified == b.modified

pub record CacheEntry : Type 0 where
  pub content : Text
  pub fingerprint : FileFingerprint
  pub last_access : ℕ

pub record ContextCache : Type 0 where
  pub entries : Assoc CacheEntry
  pub total_bytes : ℕ
  pub next_access : ℕ

unfoldable pub next_access_tick : ContextCache → ContextCache
next_access_tick c = record c { next_access = saturating_add c.next_access 1 }

-- `min_by_key`: the first one of the smallest
abbrev pub keep_least : Text → CacheEntry → Option (Text × CacheEntry) → Option (Text × CacheEntry)
keep_least k e none = some (k, e)
keep_least k e (some (j, f)) = if ltb f.last_access e.last_access then some (j, f) else some (k, e)

unfoldable pub least_recent : Assoc CacheEntry → Option (Text × CacheEntry)
least_recent [] = none
least_recent ((k, e) ∷ m) = keep_least k e (least_recent m)

abbrev pub removed_bytes : Option CacheEntry → ℕ
removed_bytes none = 0
removed_bytes (some e) = byte_len e.content

-- `remove`, and the bytes of what was removed taken off the total
unfoldable pub remove_entry : ContextCache → Text → ContextCache
remove_entry c path = record c {
  entries = remove path c.entries;
  total_bytes = c.total_bytes - removed_bytes (lookup path c.entries);
}

abbrev pub remove_least : Option (Text × CacheEntry) → ContextCache → ContextCache
remove_least none c = c
remove_least (some (path, e)) c = remove_entry c path

abbrev pub is_too_large : ContextCache → Bool
is_too_large c = ltb max_cache_entries (length c.entries) || ltb max_cache_total_bytes c.total_bytes

-- `evict_to_fit` by fuel. A turn of its loop takes out an entry, so that the number of entries is
-- enough.
unfoldable pub evict_by : ℕ → ContextCache → ContextCache
unfolding least_recent remove_entry
evict_by zero c = c
evict_by (suc fuel) c =
    let less = evict_by fuel (remove_least (least_recent c.entries) c) in
    if is_too_large c then less else c

unfoldable pub evict_to_fit : ContextCache → ContextCache
unfolding evict_by
evict_to_fit c = evict_by (length c.entries) c

-- The entry, if it is of this version of the file
abbrev pub of_version : FileFingerprint → Option CacheEntry → Option CacheEntry
of_version fingerprint none = none
of_version fingerprint (some e) = if is_same_version e.fingerprint fingerprint then some e else none

abbrev pub hit_or_drop : ContextCache → Text → Option CacheEntry → ContextCache × Option Text
hit_or_drop c path none = (remove_entry c path, none)
hit_or_drop c path (some e) =
    let t = (next_access_tick c).next_access in
    (
      record c { entries = insert path (record e { last_access = t }) c.entries; next_access = t },
      some e.content,
    )

unfoldable pub try_read_from_cache :
    ContextCache → Text → FileFingerprint → ContextCache × Option Text
unfolding next_access_tick remove_entry is_same_version
try_read_from_cache c path fingerprint =
    hit_or_drop c path (of_version fingerprint (lookup path c.entries))

unfoldable pub insert_into_cache : ContextCache → Text → FileFingerprint → Text → ContextCache
unfolding next_access_tick remove_entry evict_to_fit
insert_into_cache c path fingerprint content =
    let less = remove_entry c path in
    let t = (next_access_tick less).next_access in
    let entry : CacheEntry = record {
      content = content;
      fingerprint = fingerprint;
      last_access = t;
    } in
    evict_to_fit (record {
      entries = insert path entry less.entries;
      total_bytes = saturating_add less.total_bytes (byte_len content);
      next_access = t;
    })

-- What `existing_path`, `is_dir` and `file_fingerprint` find at the path
pub data Found : Type 0 where
  refused : Found
  absent : Found
  directory : Found
  unknown_version : Found
  file : Text → FileFingerprint → Found

abbrev pub uncached : ContextCache → Option Text → ContextCache × Option CachedFileRead
uncached c none = (c, none)
uncached c (some content) = (c, some (record { content = content; cache_hit = false }))

abbrev pub read_through :
    Text
    → FileFingerprint
    → Option Text
    → ContextCache × Option Text
    → ContextCache × Option CachedFileRead
read_through path fingerprint read (c, some content) =
    (c, some (record { content = content; cache_hit = true }))
read_through path fingerprint none (c, none) = (c, none)
read_through path fingerprint (some content) (c, none) = (
  insert_into_cache c path fingerprint content,
  some (record { content = content; cache_hit = false }),
)

-- `read` is what `operator.read_file` gives; `none` is an error.
unfoldable pub read_cached_file :
    ContextCache → Found → Option Text → ContextCache × Option CachedFileRead
unfolding try_read_from_cache insert_into_cache
read_cached_file c refused read = (c, none)
read_cached_file c absent read = uncached c read
read_cached_file c directory read = uncached c read
read_cached_file c unknown_version read = uncached c read
read_cached_file c (file path fingerprint) read =
    if ltb max_cache_file_bytes fingerprint.file_len
    then uncached c read
    else read_through path fingerprint read (try_read_from_cache c path fingerprint)
