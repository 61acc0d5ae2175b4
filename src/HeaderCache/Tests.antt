-- ===== src/HeaderCache/Tests.antt =====
-- A cache with an entry of an older version of the file; headers are the length of the file.
use vexcoder.Prelude.{ℕ, ◌≡◌, refl, Option, some, [], ◌∷◌, arith, Text, codes}
use vexcoder.HeaderCache.Lru.{FileFingerprint, HeaderLruCache, cached_task_header}
use vexcoder.HeaderCache.Transparent.{IsSound, cached_task_header-Transparent}

abbrev before : FileFingerprint
before = record { file_len = 10; modified = 1 }

abbrev after : FileFingerprint
after = record { file_len = 12; modified = 2 }

abbrev parse : Text → FileFingerprint → Option ℕ
parse path print = some print.file_len

abbrev cache : HeaderLruCache ℕ
cache = record {
  entries =
      (
        codes "a.json",
        record { header = 10; fingerprint = before; last_access = 1; updated_at = 5 },
      )
      ∷ [];
  next_access = 1;
}

cached_task_header-Transparent_example :
    IsSound parse (cached_task_header (λ h. h) cache (codes "a.json") (some after) (some 12)).0
    × ((cached_task_header (λ h. h) cache (codes "a.json") (some after) (some 12)).1
        ≡ parse (codes "a.json") after)
cached_task_header-Transparent_example =
    cached_task_header-Transparent parse (λ h. h) cache (codes "a.json") after (some 12) refl
      (omega arith, (refl, tt))
