-- ===== src/Ledger/Tests.antt =====
-- A file that is read twice.
use vexcoder.Prelude.{
  inr, arith, ◌≡◌, ℕ, ◌≤◌, none, some, [], ◌∷◌, if◌then◌else◌, length, codes, text_eq,
}
use vexcoder.Ledger.Reads.{
  FileFingerprint, LocatedRead, record_pulse_read, find_pulse_read, same_version,
}
use vexcoder.Ledger.Found.{record_pulse_read-Found}

abbrev version : ℕ → FileFingerprint
version time = record { len = 40; modified = time }

abbrev read_at : ℕ → LocatedRead
read_at time = record {
  path = codes "a.rs";
  start_line = 1;
  end_line = 9;
  fingerprint = version time;
}

record_pulse_read-Found_example :
    (find_pulse_read
        (codes "b.rs")
        (some (version 7))
        (record_pulse_read (read_at 7) (read_at 3 ∷ []))
      ≡ (if text_eq (codes "a.rs") (codes "b.rs")
          then if same_version (version 7) (version 7) then some (read_at 7) else none
          else find_pulse_read (codes "b.rs") (some (version 7)) (read_at 3 ∷ [])))
    × (length (record_pulse_read (read_at 7) (read_at 3 ∷ [])) ≤ 64)
record_pulse_read-Found_example =
    record_pulse_read-Found (read_at 7) (read_at 3 ∷ []) (version 7) (codes "b.rs")
      (inr (omega arith))
