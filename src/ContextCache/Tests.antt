-- ===== src/ContextCache/Tests.antt =====
-- A cache with one file, read once more, and in a new version.
use vexcoder.Prelude.{
  ◌≤◌, ◌^◌, ◌≡◌, refl, ◌==◌, if◌then◌else◌, Option, some, [], ◌∷◌, arith, Text, codes, byte_len,
  len_utf8,
}
use vexcoder.Prelude.Assoc.{lookup}
use vexcoder.ContextCache.Cache.{FileFingerprint, ContextCache, file, read_cached_file}
use vexcoder.ContextCache.Read.{IsFaithful, content_of, read_cached_file-Transparent}

abbrev old_version : FileFingerprint
old_version = record { file_len = 3; modified = 1 }

abbrev new_version : FileFingerprint
new_version = record { file_len = 4; modified = 2 }

abbrev version : Text → FileFingerprint → Option Text
version path print = if print.modified == 1 then some (codes "abc") else some (codes "abcd")

abbrev cache : ContextCache
cache = record {
  entries =
      (codes "a.rs", record { content = codes "abc"; fingerprint = old_version; last_access = 1 })
      ∷ [];
  total_bytes = 3;
  next_access = 1;
}

cache-IsFaithful : IsFaithful version cache
unfolding byte_len len_utf8 lookup
cache-IsFaithful = ((((refl, tt), refl), (omega arith, omega arith)), (refl, tt))

fits : byte_len (codes "abcd") ≤ 2 ^ 63
unfolding byte_len len_utf8
fits = omega arith

read_cached_file-Transparent_example :
    IsFaithful version
      (read_cached_file cache (file (codes "a.rs") new_version) (some (codes "abcd"))).0
    × (content_of version
          (read_cached_file cache (file (codes "a.rs") new_version) (some (codes "abcd"))).1
        ≡ some (codes "abcd"))
read_cached_file-Transparent_example =
    read_cached_file-Transparent version cache (file (codes "a.rs") new_version)
      (some (codes "abcd")) fits refl cache-IsFaithful
