-- ===== src/Sse/Delimiter.antt =====
-- A delimiter that was found stays where it is when bytes are added, unless the last byte is a
-- carriage return whose line feed is among them (src/api/stream/sse_framing.rs).
use vexcoder.Prelude.{
  ℕ, zero, suc, ◌+◌, ◌≤◌, ◌≡◌, refl, ap, Bool, true, false, ◌&&◌, none, some, List, [], ◌∷◌, ◌++◌,
  arith, length, take, drop, ◌==◌, inl, inr, Bool-cases, Option-cases, if_cases, subst, sym,
  length-drop,
}
use vexcoder.Sse.Bytes.{
  Bytes, starts_lf, terminator_len, find_delimiter, strip_utf8_bom_once, utf8_bom,
}
use vexcoder.Lines.{starts_with}

-- No terminator `\r\n` stands across the end of the first bytes.
abbrev pub Unsplit : Bytes → Bytes → Type 0
Unsplit [] t = Unit
Unsplit (c ∷ []) t = (c == b'\r' && starts_lf t) ≡ false
Unsplit (c ∷ d ∷ s) t = Unsplit (d ∷ s) t

terminator_len-append :
    (c : ℕ) (s t : Bytes)
    → Unsplit (c ∷ s) t
    → terminator_len ((c ∷ s) ++ t) ≡ terminator_len (c ∷ s)
unfolding terminator_len
terminator_len-append c [] t u = ground arith
terminator_len-append c (d ∷ s) t u = refl

pub find_delimiter-append :
    (s t : Bytes) (i : ℕ) {pos n : ℕ}
    → Unsplit s t
    → find_delimiter s i ≡ some (pos, n)
    → find_delimiter (s ++ t) i ≡ some (pos, n)
unfolding find_delimiter
find_delimiter-append [] t i u h = cc
find_delimiter-append (c ∷ []) t i u h = cc
find_delimiter-append (c ∷ d ∷ []) t i u h = ground (arith, terminator_len-append d [] t u)
find_delimiter-append (c ∷ d ∷ e ∷ s) t i {pos} {n} u h = ground (
  arith,
  terminator_len-append d (e ∷ s) t u,
  terminator_len-append e s t u,
  find_delimiter-append (d ∷ e ∷ s) t (i + 1) {pos = pos} {n = n} u,
  find_delimiter-append (e ∷ s) t (i + 2) {pos = pos} {n = n} u,
)

terminator_len-bounds : (s : Bytes) {k : ℕ} → terminator_len s ≡ some k → (1 ≤ k) × (k ≤ length s)
unfolding terminator_len
terminator_len-bounds [] h = cc
terminator_len-bounds (c ∷ []) h = ground arith
terminator_len-bounds (c ∷ d ∷ s) h = ground arith

-- The delimiter stands in the bytes, and has at least two of them.
pub find_delimiter-bounds :
    (s : Bytes) (i : ℕ) {pos n : ℕ}
    → find_delimiter s i ≡ some (pos, n)
    → (2 ≤ n) × (pos + n ≤ i + length s)
unfolding find_delimiter
find_delimiter-bounds [] i h = cc
find_delimiter-bounds (c ∷ []) i h = cc
find_delimiter-bounds (c ∷ d ∷ s) i {pos} {n} h = elim (Bool-cases (c == b'\r' && d == b'\n')) [
  | inl both ↦ elim (Option-cases (terminator_len s)) [
    | inl e ↦ ground (arith, both, e, find_delimiter-bounds s (i + 2) {pos = pos} {n = n})
    | inr (k, e) ↦ ground (arith, both, e, terminator_len-bounds s e)
  ]
  | inr other ↦ elim (Option-cases (terminator_len (d ∷ s))) [
    | inl e ↦ ground (arith, other, e, find_delimiter-bounds (d ∷ s) (i + 1) {pos = pos} {n = n})
    | inr (k, e) ↦ ground (
      arith,
      other,
      e,
      terminator_len-bounds (d ∷ s) e,
      find_delimiter-bounds (d ∷ s) (i + 1) {pos = pos} {n = n},
    )
  ]
]

pub Unsplit-drop : (k : ℕ) (s t : Bytes) → Unsplit s t → Unsplit (drop k s) t
Unsplit-drop zero s t u = u
Unsplit-drop (suc k) [] t u = tt
Unsplit-drop (suc zero) (c ∷ []) t u = tt
Unsplit-drop (suc (suc k)) (c ∷ []) t u = tt
Unsplit-drop (suc k) (c ∷ d ∷ s) t u = Unsplit-drop k (d ∷ s) t u

pub take-append {ℓ} :
    {A : Type ℓ} (k : ℕ) (s t : List A) → k ≤ length s → take k (s ++ t) ≡ take k s
take-append zero s t h = refl
take-append (suc k) [] t h = absurd (omega arith)
take-append (suc k) (x ∷ s) t h = ap (◌∷◌ x) (take-append k s t (omega arith))

pub drop-append {ℓ} :
    {A : Type ℓ} (k : ℕ) (s t : List A) → k ≤ length s → drop k (s ++ t) ≡ drop k s ++ t
drop-append zero s t h = refl
drop-append (suc k) [] t h = absurd (omega arith)
drop-append (suc k) (x ∷ s) t h = drop-append k s t (omega arith)

-- Once the mark has been looked for, more bytes change nothing of it; until then the buffer is the
-- beginning of a mark, and holds no delimiter.
pub strip_utf8_bom_once-append :
    (checked : Bool) (s t : Bytes)
    → ((strip_utf8_bom_once checked s).0 ≡ true)
    → (strip_utf8_bom_once checked (s ++ t) ≡ (true, (strip_utf8_bom_once checked s).1 ++ t))
unfolding strip_utf8_bom_once
strip_utf8_bom_once-append true s t h = refl
strip_utf8_bom_once-append false [] t h = ground arith
strip_utf8_bom_once-append false (a ∷ []) [] h = ground arith
strip_utf8_bom_once-append false (a ∷ []) (x ∷ []) h = ground arith
strip_utf8_bom_once-append false (a ∷ []) (x ∷ y ∷ t) h = ground arith
strip_utf8_bom_once-append false (a ∷ b ∷ []) [] h = ground arith
strip_utf8_bom_once-append false (a ∷ b ∷ []) (x ∷ t) h = ground arith
strip_utf8_bom_once-append false (a ∷ b ∷ c ∷ s) t h = ground arith

pub strip_utf8_bom_once-waits :
    (s : Bytes)
    → (strip_utf8_bom_once false s).0 ≡ false
    → ((strip_utf8_bom_once false s).1 ≡ s) × (find_delimiter s 0 ≡ none)
unfolding strip_utf8_bom_once find_delimiter
strip_utf8_bom_once-waits [] h = (refl, refl)
strip_utf8_bom_once-waits (a ∷ []) h = (ground arith, refl)
strip_utf8_bom_once-waits (a ∷ b ∷ []) h = (ground arith, ground arith)
strip_utf8_bom_once-waits (a ∷ b ∷ c ∷ s) h = absurd (ground arith)

-- What is behind the mark is the buffer, or the buffer without its first bytes.
strip_utf8_bom_once-drop :
    (checked : Bool) (s : Bytes) → (k : ℕ) × ((strip_utf8_bom_once checked s).1 ≡ drop k s)
unfolding strip_utf8_bom_once
strip_utf8_bom_once-drop true s = (0, refl)
strip_utf8_bom_once-drop false s =
    if_cases (λ (r : Bool × Bytes). (k : ℕ) × (r.1 ≡ drop k s)) (starts_with utf8_bom s) _ _
      (λ _. (3, refl)) (λ _. (0, ground arith))

pub strip_utf8_bom_once-Unsplit :
    (checked : Bool) (s t : Bytes) → Unsplit s t → Unsplit (strip_utf8_bom_once checked s).1 t
strip_utf8_bom_once-Unsplit checked s t u =
    let (k, e) = strip_utf8_bom_once-drop checked s in
    subst (λ (r : Bytes). Unsplit r t) (sym e) (Unsplit-drop k s t u)

pub strip_utf8_bom_once-length :
    (checked : Bool) (s : Bytes) → length (strip_utf8_bom_once checked s).1 ≤ length s
strip_utf8_bom_once-length checked s =
    let (k, e) = strip_utf8_bom_once-drop checked s in
    omega (arith, ap (λ (r : Bytes). length r) e, length-drop k s)
