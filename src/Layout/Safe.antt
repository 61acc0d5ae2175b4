-- ===== src/Layout/Safe.antt =====
-- The moves by rows leave the cursor at a character (src/ui/editor/mod.rs, src/ui/input_metrics.rs).
use vexcoder.Prelude.{
  ◌≡◌, refl, sym, ap, subst, ◌∙◌, inl, inr, ℕ, ◌+◌, ◌-◌, ◌≤◌, min, max, Bool, true, ◌||◌,
  Bool-cases, Option-cases, Option, some, List, [], ◌∷◌, ◌++◌, append-nil, append_assoc, arith, All,
  All-append, All-get_elem?, get_elem?, ltb, leb, ◌==◌, Text, len_utf8, byte_len, byte_len-append,
}
use vexcoder.Prelude.Options.{◌>>=◌, Returns, Returns-bind}
use vexcoder.Prelude.Strings.{is_char_boundary, is_char_boundary-append, is_char_boundary-middle}
use vexcoder.Editor.Boundary.{clamp_cursor_to_boundary_left}
use vexcoder.Editor.State.{InputState}
use vexcoder.Editor.Safe.{IsWellFormed}
use vexcoder.Layout.Wrap.{Unicode, char_display_width}
use vexcoder.Layout.Rows.{
  Span, Scan, VisualLayout, last_span, row_bounds, row_count, slice, start, scan_from, close_layout,
  visual_layout, col_from, byte_for_row_col_in_span, byte_for_row_col,
}
use vexcoder.Layout.Place.{Cut, slice-middle}
use vexcoder.Layout.Agree.{last_rows, visual_layout-Ended}
use vexcoder.Layout.Moves.{
  up_in, down_in, move_cursor_visual_up, move_cursor_visual_down, move_cursor_visual_home,
  move_cursor_visual_end, go_to,
}

Cut-end : (input : Text) → Cut input (byte_len input, byte_len input)
unfolding byte_len
Cut-end input = record {
  before = input;
  row = [];
  behind = [];
  parts = sym (append-nil input);
  from = refl;
  to = omega arith;
}

close-cuts :
    (input : Text) (width cursor : ℕ) (s : Scan)
    → s.row_start ≤ byte_len input
    → All (Cut input) (last_rows input s)
    → All (Cut input) (close_layout width cursor (byte_len input) s).spans
unfolding close_layout
close-cuts input width cursor s h cuts =
    let from : min s.row_start (byte_len input) ≡ s.row_start = omega (arith, h) in
    elim (Bool-cases (leb width s.col)) [
      | inl full ↦
          rw (full, from)
            (All-append (Cut input) (last_rows input s) ((byte_len input, byte_len input) ∷ []) cuts
              (Cut-end input, tt))
      | inr room ↦ rw (room, from) cuts
    ]

-- Every row is a slice between characters.
visual_layout-cuts :
    (unicode : Unicode) (input : Text) (cursor_byte width : ℕ)
    → All (Cut input) (visual_layout unicode input cursor_byte width).spans
unfolding visual_layout
visual_layout-cuts unicode input cursor_byte width =
    let (h, e, cuts) = visual_layout-Ended unicode input cursor_byte width in
    let cursor = clamp_cursor_to_boundary_left input cursor_byte in
    close-cuts input (max width 1) cursor (scan_from unicode (max width 1) cursor 0 input start) h
      cuts

Cut-zero : (input : Text) → Cut input (0, 0)
unfolding byte_len
Cut-zero input = record {
  before = [];
  row = [];
  behind = input;
  parts = refl;
  from = refl;
  to = omega arith;
}

last_span-Cut :
    (input : Text) (spans : List Span) → All (Cut input) spans → Cut input (last_span spans)
last_span-Cut input [] h = Cut-zero input
last_span-Cut input (s ∷ []) h = h.0
last_span-Cut input (s ∷ t ∷ spans) h = last_span-Cut input (t ∷ spans) h.1

row_bounds-Cut :
    (input : Text) (layout : VisualLayout) (row : ℕ)
    → All (Cut input) layout.spans
    → Cut input (row_bounds layout row)
unfolding row_bounds
row_bounds-Cut input layout row h = elim (Option-cases (get_elem? layout.spans row)) [
  | inl e ↦ rw e (last_span-Cut input layout.spans h)
  | inr (a, e) ↦ rw e (All-get_elem? (Cut input) layout.spans row h e)
]

abbrev AtCharacter : Text → ℕ → Type 0
AtCharacter input i = is_char_boundary input i ≡ true

module _ (unicode : Unicode) (input : Text) where
  col_from-AtCharacter :
      (before s behind : Text) (idx end target col : ℕ)
      → input ≡ before ++ (s ++ behind)
      → idx ≡ byte_len before
      → end ≡ idx + byte_len s
      → AtCharacter input (col_from unicode idx end target s col)
  unfolding byte_len
  col_from-AtCharacter before [] behind idx end target col e from to =
      let same : end ≡ byte_len before = omega (arith, from, to) in
      rw (same, e) (is_char_boundary-append before behind)
  col_from-AtCharacter before (c ∷ s) behind idx end target col e from to =
      elim (Bool-cases (leb target col || ltb target (col + char_display_width unicode c))) [
        | inl here ↦ rw (here, from, e) (is_char_boundary-append before (c ∷ (s ++ behind)))
        | inr later ↦ rw later (
            col_from-AtCharacter (before ++ (c ∷ [])) s behind (idx + len_utf8 c) end target
              (col + char_display_width unicode c)
              (e ∙ sym (append_assoc before (c ∷ []) (s ++ behind)))
              (omega (arith, from, byte_len-append before (c ∷ []))) (omega (arith, to)))
      ]

  span-AtCharacter :
      (span : Span) (target : ℕ)
      → Cut input span
      → Returns (AtCharacter input) (byte_for_row_col_in_span unicode input span.0 span.1 target)
  unfolding byte_for_row_col_in_span
  span-AtCharacter (a, b) target cut = elim (Bool-cases (leb b a)) [
    | inl none_there ↦
        let total : byte_len input ≡ byte_len cut.before + byte_len (cut.row ++ cut.behind) =
          ap byte_len cut.parts ∙ byte_len-append cut.before (cut.row ++ cut.behind) in
        let at : min a (byte_len input) ≡ byte_len cut.before = omega (arith, total, cut.from) in
        rw (none_there, at, cut.parts) (is_char_boundary-append cut.before (cut.row ++ cut.behind))
    | inr some_there ↦
        let found : slice input a b ≡ some cut.row =
          rw (cut.parts, cut.from, cut.to) (slice-middle cut.before cut.row cut.behind) in
        rw some_there (
          subst (Returns (AtCharacter input))
            (sym (ap (λ r. r >>= (λ row. some (col_from unicode a b target row 0))) found))
            (col_from-AtCharacter cut.before cut.row cut.behind a b target 0 cut.parts cut.from
              (omega (arith, cut.from, cut.to))))
  ]

Cut-from : (input : Text) (span : Span) → Cut input span → AtCharacter input span.0
Cut-from input span cut =
    rw (cut.from, cut.parts) (is_char_boundary-append cut.before (cut.row ++ cut.behind))

Cut-to : (input : Text) (span : Span) → Cut input span → AtCharacter input span.1
Cut-to input span cut =
    rw (cut.to, cut.parts) (is_char_boundary-middle cut.before cut.row cut.behind)

-- The state is well formed, and its text is as before.
abbrev pub Moved : InputState → Bool × InputState → Type 0
Moved s (moved, t) = IsWellFormed t × (t.buffer ≡ s.buffer)

module _ (unicode : Unicode) (s : InputState) (w : IsWellFormed s) where
  to-Moved :
      (cursor : ℕ) → AtCharacter s.buffer cursor → Moved s (true, record s { cursor = cursor })
  to-Moved cursor h = (record { at_boundary = h; in_history = w.in_history }, refl)

  go_to-Moved : (target : ℕ) → AtCharacter s.buffer target → Moved s (go_to unicode s target)
  go_to-Moved target h = elim (Bool-cases (s.cursor == target)) [
    | inl same ↦ rw same (w, refl)
    | inr other ↦ rw other (to-Moved target h)
  ]

  module _ (layout : VisualLayout) (cuts : All (Cut s.buffer) layout.spans) where
    abbrev by_row : (row col : ℕ) → Option (Bool × InputState)
    by_row row col =
        byte_for_row_col unicode layout s.buffer row col
        >>= (λ cursor. some (true, record s { cursor = cursor }))

    by_row-Moved : (row col : ℕ) → Returns (Moved s) (by_row row col)
    unfolding byte_for_row_col
    by_row-Moved row col =
        Returns-bind (AtCharacter s.buffer) (Moved s)
          (byte_for_row_col unicode layout s.buffer row col)
          (λ cursor. some (true, record s { cursor = cursor }))
          (span-AtCharacter unicode s.buffer (row_bounds layout row) col
            (row_bounds-Cut s.buffer layout row cuts))
          to-Moved

    up_in-Moved : Returns (Moved s) (up_in unicode layout s)
    up_in-Moved = elim (Bool-cases (layout.cursor_row == 0)) [
      | inl top ↦ rw top (w, refl)
      | inr below ↦ rw below (by_row-Moved (layout.cursor_row - 1) layout.cursor_col)
    ]

    down_in-Moved : Returns (Moved s) (down_in unicode layout s)
    down_in-Moved = elim (Bool-cases (leb (row_count layout - 1) layout.cursor_row)) [
      | inl last ↦ rw last (w, refl)
      | inr above ↦ rw above (by_row-Moved (layout.cursor_row + 1) layout.cursor_col)
    ]

-- On a well-formed state the four moves by rows return, for every width, and leave the text as it
-- is and the cursor at the start of a character or at the end.
pub move_cursor_visual-Moved :
    (unicode : Unicode) (s : InputState) (width : ℕ)
    → IsWellFormed s
    → Returns (Moved s) (move_cursor_visual_up unicode s width)
      × Returns (Moved s) (move_cursor_visual_down unicode s width)
      × Moved s (move_cursor_visual_home unicode s width)
      × Moved s (move_cursor_visual_end unicode s width)
unfolding move_cursor_visual_up move_cursor_visual_down move_cursor_visual_home
    move_cursor_visual_end
move_cursor_visual-Moved unicode s width w =
    let layout = visual_layout unicode s.buffer s.cursor (max width 1) in
    let whole = visual_layout unicode s.buffer (byte_len s.buffer) (max width 1) in
    let span = row_bounds whole layout.cursor_row in
    let cuts = visual_layout-cuts unicode s.buffer s.cursor (max width 1) in
    let cut =
      row_bounds-Cut s.buffer whole layout.cursor_row
        (visual_layout-cuts unicode s.buffer (byte_len s.buffer) (max width 1)) in
    (
      up_in-Moved unicode s w layout cuts,
      down_in-Moved unicode s w layout cuts,
      go_to-Moved unicode s w span.0 (Cut-from s.buffer span cut),
      go_to-Moved unicode s w span.1 (Cut-to s.buffer span cut),
    )
