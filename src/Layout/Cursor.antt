-- ===== src/Layout/Cursor.antt =====
-- The row of the cursor in the loop of `visual_layout` (src/ui/input_metrics.rs).
use vexcoder.Prelude.{
  ◌≡◌, refl, inl, inr, ℕ, ◌+◌, ◌-◌, ◌≤◌, ◌<◌, Bool, true, false, ◌&&◌, Bool-cases, Option, none,
  some, List, [], ◌∷◌, ◌++◌, arith, length, length-append, leb, ◌==◌, Text, len_utf8, len_utf8_pos,
  byte_len,
}
use vexcoder.Prelude.Strings.{is_char_boundary}
use vexcoder.Layout.Wrap.{Unicode, wraps_before}
use vexcoder.Layout.Rows.{Span, Scan, set_cursor, scan_char, scan_from}
use vexcoder.Layout.Inside.{
  Inside-last, Before, open_rows, Tracks, set_cursor-After, After-grow, After-end,
}

and_false : (b : Bool) → (b && false) ≡ false
and_false true = refl
and_false false = refl

length-last : (xs : List Span) (x : Span) → length (xs ++ (x ∷ [])) ≡ length xs + 1
length-last xs x = omega (arith, length-append xs (x ∷ []))

boundary-cons :
    (c : ℕ) (rest : Text) (k : ℕ)
    → 0 < k
    → is_char_boundary (c ∷ rest) k ≡ true
    → (len_utf8 c ≤ k) × (is_char_boundary rest (k - len_utf8 c) ≡ true)
unfolding is_char_boundary
boundary-cons c rest k p h = ground (arith, len_utf8_pos c)

module _ (unicode : Unicode) (width cursor : ℕ) where
  -- A row that starts with the character that the cursor is at
  wraps-Before :
      (s : Scan) (idx n : ℕ)
      → 0 < n
      → idx ≡ cursor
      → Tracks cursor s idx
      → Before cursor
          ((s.spans ++ ((s.row_start, idx) ∷ [])) ++ ((idx, idx + n) ∷ []))
          (idx + n)
          (set_cursor (leb cursor idx) (s.row + 1, 0) s).cursor
  wraps-Before s idx n p here (r, h, b) = go s.cursor b
    where
      go :
          (o : Option Span)
          → Before cursor (open_rows cursor s idx) idx o
          → Before cursor
              ((s.spans ++ ((s.row_start, idx) ∷ [])) ++ ((idx, idx + n) ∷ []))
              (idx + n)
              (set_cursor (leb cursor idx) (s.row + 1, 0) (record s { cursor = o })).cursor
      go none b =
          let at : leb cursor idx ≡ true = ground (arith, here) in
          let count = length-last s.spans (s.row_start, idx) in
          rw at (
            Inside-last cursor (s.row + 1) (s.spans ++ ((s.row_start, idx) ∷ [])) idx (idx + n)
                (omega (arith, count, r)) (omega (arith, here)) (omega (arith, here)),
            omega (arith, here, p),
          )
      go (some (q, c)) (i, lt) = absurd (omega (arith, lt, here))

  Tracks-step :
      (c idx : ℕ) (s : Scan)
      → (idx < cursor → idx + len_utf8 c ≤ cursor)
      → Tracks cursor s idx
      → Tracks cursor (scan_char unicode width cursor idx c s) (idx + len_utf8 c)
  unfolding scan_char
  Tracks-step c idx s step (r, h, b) =
      let p = len_utf8_pos c in
      let set = set_cursor-After cursor s idx s.col (r, h, b) in
      let here = (set_cursor (leb cursor idx) (s.row, s.col) s).cursor in
      let grown = After-grow cursor s.spans s.row_start idx (len_utf8 c) here p step set in
      let count = length-last s.spans (s.row_start, idx) in
      elim (Bool-cases (c == b'\r')) [
        | inl cr ↦ rw cr (r, omega (arith, h), grown)
        | inr no_cr ↦ elim (Bool-cases (c == b'\n')) [
          | inl lf ↦
              rw (no_cr, lf)
                (
                  omega (arith, r, count),
                  omega arith,
                  After-end cursor (open_rows cursor s idx) (idx + len_utf8 c, idx + len_utf8 c) idx
                      (len_utf8 c) here p step set,
                )
          | inr no_lf ↦ elim (Bool-cases (wraps_before unicode width s.col c)) [
            | inr stays ↦
                rw (no_cr, no_lf, stays, and_false (idx == cursor)) (r, omega (arith, h), grown)
            | inl wraps ↦ elim (Bool-cases (idx == cursor)) [
              | inl at ↦
                  rw (no_cr, no_lf, wraps, at)
                    (
                      omega (arith, r, count),
                      omega arith,
                      wraps-Before s idx (len_utf8 c) p (ground arith) (r, h, b),
                    )
              | inr away ↦
                  rw (no_cr, no_lf, wraps, away)
                    (
                      omega (arith, r, count),
                      omega arith,
                      After-end cursor (open_rows cursor s idx) (idx, idx + len_utf8 c) idx
                          (len_utf8 c) here p step set,
                    )
            ]
          ]
        ]
      ]

  -- The cursor stands at the start of a character, or at the end.
  abbrev Bound : ℕ → Text → Type 0
  Bound idx rest = idx ≤ cursor → is_char_boundary rest (cursor - idx) ≡ true

  Bound-next :
      (c idx : ℕ) (rest : Text)
      → Bound idx (c ∷ rest)
      → (idx < cursor → idx + len_utf8 c ≤ cursor) × Bound (idx + len_utf8 c) rest
  Bound-next c idx rest h = (
    λ lt.
        let (fits, tail) =
          boundary-cons c rest (cursor - idx) (omega (arith, lt)) (h (omega (arith, lt))) in
        omega (arith, fits, lt),
    λ le.
        let p = len_utf8_pos c in
        let (fits, tail) =
          boundary-cons c rest (cursor - idx) (omega (arith, le, p)) (h (omega (arith, le))) in
        let e : cursor - (idx + len_utf8 c) ≡ cursor - idx - len_utf8 c = omega arith in rw e tail,
  )

  pub Tracks-loop :
      (rest : Text) (idx : ℕ) (s : Scan)
      → Bound idx rest
      → Tracks cursor s idx
      → Tracks cursor (scan_from unicode width cursor idx rest s) (idx + byte_len rest)
        × Bound (idx + byte_len rest) []
  unfolding scan_from byte_len
  Tracks-loop [] idx s h t = let e : idx + 0 ≡ idx = omega arith in rw e (t, h)
  Tracks-loop (c ∷ rest) idx s h t =
      let (step, next) = Bound-next c idx rest h in
      let e : idx + (len_utf8 c + byte_len rest) ≡ (idx + len_utf8 c) + byte_len rest =
        omega arith in
      rw e (
        Tracks-loop rest (idx + len_utf8 c) (scan_char unicode width cursor idx c s) next
          (Tracks-step c idx s step t))
