-- ===== src/Ledger/Reads.antt =====
-- `record_pulse_read`, `find_pulse_read` and `clear_pulse_ledger` (src/tools/pulse_ledger.rs). A
-- path is its text; the fingerprint of a file, and whether it can be read, come in as an argument.
-- The ledger is one value, which the lock of the source guards.
use vexcoder.Prelude.{
  ℕ, Bool, not, ◌&&◌, Option, none, some, List, [], ◌∷◌, ◌++◌, retain, length, ltb, ◌==◌,
  if◌then◌else◌, Text, text_eq,
}

pub record FileFingerprint : Type 0 where
  pub len : ℕ
  pub modified : ℕ

pub record LocatedRead : Type 0 where
  pub path : Text
  pub start_line : ℕ
  pub end_line : ℕ
  pub fingerprint : FileFingerprint

abbrev pub max_pulse_ledger_entries : ℕ
max_pulse_ledger_entries = 64

-- `while entries.len() > MAX_PULSE_LEDGER_ENTRIES { entries.remove(0); }`
abbrev pub drop_oldest : List LocatedRead → List LocatedRead
drop_oldest [] = []
drop_oldest (entry ∷ entries) =
    let rest = drop_oldest entries in
    if ltb max_pulse_ledger_entries (length (entry ∷ entries)) then rest else entry ∷ entries

unfoldable pub record_pulse_read : LocatedRead → List LocatedRead → List LocatedRead
unfolding text_eq
record_pulse_read read entries =
    drop_oldest (retain (λ entry. not (text_eq entry.path read.path)) entries ++ (read ∷ []))

abbrev pub same_version : FileFingerprint → FileFingerprint → Bool
same_version a b = a.len == b.len && a.modified == b.modified

abbrev pub later_or : Option LocatedRead → Option LocatedRead → Option LocatedRead
later_or none b = b
later_or (some a) b = some a

-- `iter().rev().find`
abbrev pub find_last : (LocatedRead → Bool) → List LocatedRead → Option LocatedRead
find_last p [] = none
find_last p (entry ∷ entries) =
    later_or (find_last p entries) (if p entry then some entry else none)

abbrev pub is_read : Text → FileFingerprint → LocatedRead → Bool
is_read path current entry = text_eq entry.path path && same_version entry.fingerprint current

unfoldable pub find_pulse_read :
    Text → Option FileFingerprint → List LocatedRead → Option LocatedRead
unfolding text_eq
find_pulse_read path none entries = none
find_pulse_read path (some current) entries = find_last (is_read path current) entries

unfoldable pub clear_pulse_ledger : List LocatedRead → List LocatedRead
clear_pulse_ledger entries = []
