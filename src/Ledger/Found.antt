-- ===== src/Ledger/Found.antt =====
-- What the ledger gives behind a read (src/tools/pulse_ledger.rs).
use vexcoder.Prelude.{
  ◌⊎◌, subst, ◌≡◌, refl, sym, ap, ◌∙◌, inl, inr, ◌≤◌, ◌<◌, Bool, true, false, not, Bool-cases,
  Option, none, some, List, [], ◌∷◌, ◌++◌, arith, All, retain, length, length-append, length-retain,
  ltb, if◌then◌else◌, Text, text_eq, text_eq_refl, text_eq_iff,
}
use vexcoder.Ledger.Reads.{
  FileFingerprint, LocatedRead, drop_oldest, record_pulse_read, same_version, later_or, find_last,
  is_read, find_pulse_read,
}

find_last-append :
    (p : LocatedRead → Bool) (xs : List LocatedRead) (y : LocatedRead)
    → find_last p (xs ++ (y ∷ [])) ≡ (if p y then some y else find_last p xs)
find_last-append p [] y = refl
find_last-append p (x ∷ xs) y =
    let ih = find_last-append p xs y in
    elim (Bool-cases (p y)) [ inl yes_y ↦ rw (ih, yes_y) refl | inr no_y ↦ rw (ih, no_y) refl ]

abbrev NotOf : Text → List LocatedRead → Type 0
NotOf path = All (λ (e : LocatedRead). text_eq e.path path ≡ false)

find_last-none :
    (path : Text) (current : FileFingerprint) (xs : List LocatedRead)
    → NotOf path xs
    → find_last (is_read path current) xs ≡ none
find_last-none path current [] h = refl
find_last-none path current (x ∷ xs) h = rw (find_last-none path current xs h.1, h.0) refl

retain-NotOf :
    (path : Text) (xs : List LocatedRead) → NotOf path (retain (λ e. not (text_eq e.path path)) xs)
retain-NotOf path [] = tt
retain-NotOf path (x ∷ xs) =
    let ih = retain-NotOf path xs in
    elim (Bool-cases (text_eq x.path path)) [
      | inl here ↦ rw here ih
      | inr other ↦ rw other (other, ih)
    ]

-- The newest entry stays, behind some of the others.
drop_oldest-newest :
    (path : Text) (xs : List LocatedRead) (y : LocatedRead)
    → NotOf path xs
    → (ys : List LocatedRead) × NotOf path ys × (drop_oldest (xs ++ (y ∷ [])) ≡ ys ++ (y ∷ []))
drop_oldest-newest path [] y h = ([], tt, refl)
drop_oldest-newest path (x ∷ xs) y h =
    let (ys, k, e) = drop_oldest-newest path xs y h.1 in
    elim (Bool-cases (ltb 64 (length ((x ∷ xs) ++ (y ∷ []))))) [
      | inl full ↦ (ys, k, rw full e)
      | inr room ↦ (x ∷ xs, h, rw room refl)
    ]

drop_oldest-length : (xs : List LocatedRead) → length (drop_oldest xs) ≤ 64
drop_oldest-length [] = omega arith
drop_oldest-length (x ∷ xs) = ground (arith, drop_oldest-length xs)

drop_oldest-all : (xs : List LocatedRead) → length xs ≤ 64 → drop_oldest xs ≡ xs
drop_oldest-all [] h = refl
drop_oldest-all (x ∷ xs) h =
    let room : ltb 64 (length (x ∷ xs)) ≡ false = ground (arith, h) in rw room refl

later_or-none : (o : Option LocatedRead) → later_or o none ≡ o
later_or-none none = refl
later_or-none (some a) = refl

-- Entries of another path are found as before.
find_last-retain :
    (path q : Text) (current : FileFingerprint) (xs : List LocatedRead)
    → text_eq path q ≡ false
    → find_last (is_read q current) (retain (λ e. not (text_eq e.path path)) xs)
      ≡ find_last (is_read q current) xs
find_last-retain path q current [] ne = refl
find_last-retain path q current (x ∷ xs) ne =
    let ih = find_last-retain path q current xs ne in
    elim (Bool-cases (text_eq x.path path)) [
      | inr other ↦ rw (other, ih) refl
      | inl here ↦
          let differs : text_eq x.path q ≡ false =
            ap (λ t. text_eq t q) ((text_eq_iff x.path path).0 here) ∙ ne in
          rw (here, differs) (ih ∙ sym (later_or-none (find_last (is_read q current) xs)))
    ]

module _ (read : LocatedRead) (entries : List LocatedRead) (current : FileFingerprint) where
  abbrev others : List LocatedRead
  others = retain (λ e. not (text_eq e.path read.path)) entries

  own-Found :
      find_pulse_read read.path (some current) (record_pulse_read read entries)
      ≡ (if same_version read.fingerprint current then some read else none)
  unfolding find_pulse_read record_pulse_read
  own-Found =
      let (ys, h, e) = drop_oldest-newest read.path others read (retain-NotOf read.path entries) in
      ap (find_last (is_read read.path current)) e
      ∙ (find_last-append (is_read read.path current) ys read
          ∙ rw (text_eq_refl read.path, find_last-none read.path current ys h) refl)

  other-Found :
      (q : Text)
      → text_eq read.path q ≡ false
      → length entries < 64
      → find_pulse_read q (some current) (record_pulse_read read entries)
        ≡ find_pulse_read q (some current) entries
  unfolding find_pulse_read record_pulse_read
  other-Found q ne room =
      let kept = length-retain (λ (e : LocatedRead). not (text_eq e.path read.path)) entries in
      let total = length-append others (read ∷ []) in
      ap (find_last (is_read q current))
        (drop_oldest-all (others ++ (read ∷ [])) (omega (arith, kept, total, room)))
      ∙ (find_last-append (is_read q current) others read
          ∙ rw ne (find_last-retain read.path q current entries ne))

-- Behind the recording of a read, a search for its path gives this read where the file has the
-- fingerprint of the read, and nothing where it has another one, whatever was recorded before. A
-- search for another path gives what it gave before, if fewer than 64 entries were there. The
-- ledger has at most 64 entries.
pub record_pulse_read-Found :
    (read : LocatedRead) (entries : List LocatedRead) (current : FileFingerprint) (q : Text)
    → (text_eq read.path q ≡ true) ⊎ (length entries < 64)
    → (find_pulse_read q (some current) (record_pulse_read read entries) ≡ (
        if text_eq read.path q
        then if same_version read.fingerprint current then some read else none
        else find_pulse_read q (some current) entries))
      × (length (record_pulse_read read entries) ≤ 64)
unfolding record_pulse_read
record_pulse_read-Found read entries current q h = (
  elim (Bool-cases (text_eq read.path q)) [
    | inl own ↦ rw own (
        subst
          (λ p.
            find_pulse_read p (some current) (record_pulse_read read entries)
            ≡ (if same_version read.fingerprint current then some read else none))
          ((text_eq_iff read.path q).0 own) (own-Found read entries current))
    | inr other ↦ rw other (other-Found read entries current q other (room-left h other))
  ],
  drop_oldest-length (others read entries current ++ (read ∷ [])),
)
  where
    room-left :
        (text_eq read.path q ≡ true) ⊎ (length entries < 64)
        → text_eq read.path q ≡ false
        → length entries < 64
    room-left (inl own) other = cc
    room-left (inr room) other = room
