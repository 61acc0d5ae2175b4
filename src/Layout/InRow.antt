-- ===== src/Layout/InRow.antt =====
-- The row that the cursor is given (src/ui/input_metrics.rs).
use vexcoder.Prelude.{
  ◌≡◌, refl, subst, inl, inr, ℕ, zero, suc, ◌+◌, ◌-◌, ◌≤◌, ◌<◌, min, max, Bool-cases, Option, none,
  some, List, [], ◌∷◌, ◌++◌, arith, length, length-append, get_elem?, leb, ◌==◌, Text, byte_len,
}
use vexcoder.Editor.Boundary.{clamp_cursor_to_boundary_left, clamp-boundary, clamp-le}
use vexcoder.Layout.Wrap.{Unicode}
use vexcoder.Layout.Rows.{
  Span, Scan, VisualLayout, scan_from, close_layout, start, span_or, row_count, row_bounds,
  visual_layout,
}
use vexcoder.Layout.Inside.{Inside, Inside-left, Inside-last, Before, Tracks}
use vexcoder.Layout.Cursor.{Tracks-loop}

-- The place that the layout gives the cursor is a row that it has, and the cursor lies in it.
abbrev pub InRow : ℕ → VisualLayout → Type 0
InRow cursor layout =
    (layout.cursor_row < row_count layout)
    × ((row_bounds layout layout.cursor_row).0 ≤ cursor)
    × (cursor ≤ (row_bounds layout layout.cursor_row).1)

get_elem?-length : (xs : List Span) (i : ℕ) {x : Span} → get_elem? xs i ≡ some x → i < length xs
get_elem?-length [] i h = cc
get_elem?-length (y ∷ xs) zero h = omega arith
get_elem?-length (y ∷ xs) (suc i) h = omega (arith, get_elem?-length xs i h)

Inside-InRow :
    (cursor : ℕ) (layout : VisualLayout)
    → Inside cursor layout.cursor_row layout.spans
    → InRow cursor layout
unfolding row_count row_bounds
Inside-InRow cursor layout (a, b, e, lo, hi) =
    let there = get_elem?-length layout.spans layout.cursor_row e in
    (omega (arith, there), rw e lo, rw e hi)

module _ (width cursor len : ℕ) (s : Scan) (t : Tracks cursor s len) (fits : cursor ≤ len) where
  abbrev place : Span
  place = span_or s.cursor (s.row, s.col)

  abbrev rows : List Span
  rows = s.spans ++ ((s.row_start, len) ∷ [])

  place-Inside : Inside cursor place.0 rows
  place-Inside = go s.cursor t.2
    where
      go :
          (o : Option Span)
          → Before cursor rows len o
          → Inside cursor (span_or o (s.row, s.col)).0 rows
      go none b = Inside-last cursor s.row s.spans s.row_start len t.0 (omega (arith, t.1, b)) fits
      go (some (r, c)) (i, lt) = i

  -- A cursor at the end of the text is in the last row.
  place-last : cursor ≡ len → place.0 ≡ length s.spans
  place-last e = go s.cursor t.2
    where
      go :
          (o : Option Span)
          → Before cursor rows len o
          → (span_or o (s.row, s.col)).0 ≡ length s.spans
      go none b = t.0
      go (some (r, c)) (i, lt) = absurd (omega (arith, lt, e))

  close-Inside :
      Inside cursor
        (close_layout width cursor len s).cursor_row
        (close_layout width cursor len s).spans
  unfolding close_layout
  close-Inside =
      let from : min s.row_start len ≡ s.row_start = omega (arith, t.1) in
      elim (Bool-cases (leb width s.col)) [
        | inr room ↦ rw (room, from) place-Inside
        | inl full ↦ elim (Bool-cases (cursor == len)) [
          | inr before ↦
              rw (full, from, before)
                (Inside-left cursor place.0 rows ((len, len) ∷ []) place-Inside)
          | inl end ↦
              let last = place-last (ground arith) in
              let count = length-append s.spans ((s.row_start, len) ∷ []) in
              rw (full, from, end)
                (Inside-last cursor (place.0 + 1) rows len len (omega (arith, last, count))
                  (ground arith) fits)
        ]
      ]

-- For every text, cursor and width, the row that the layout gives the cursor is one of its rows,
-- and the byte of the cursor, moved left to the start of a character, lies within that row.
pub visual_layout-InRow :
    (unicode : Unicode) (input : Text) (cursor_byte width : ℕ)
    → InRow
        (clamp_cursor_to_boundary_left input cursor_byte)
        (visual_layout unicode input cursor_byte width)
unfolding visual_layout byte_len
visual_layout-InRow unicode input cursor_byte width =
    let wide = max width 1 in
    let cursor = clamp_cursor_to_boundary_left input cursor_byte in
    let whole : cursor - 0 ≡ cursor = omega arith in
    let length_input : 0 + byte_len input ≡ byte_len input = omega arith in
    let (t, end) =
      Tracks-loop unicode wide cursor input 0 start
        (λ h. rw whole (clamp-boundary input cursor_byte)) (refl, omega arith, omega arith) in
    Inside-InRow cursor (visual_layout unicode input cursor_byte width) (
      close-Inside wide cursor (byte_len input) (scan_from unicode wide cursor 0 input start)
        (subst (Tracks cursor (scan_from unicode wide cursor 0 input start)) length_input t)
        (clamp-le input cursor_byte))
