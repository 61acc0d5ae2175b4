-- ===== src/Layout/Rows.antt =====
-- `visual_layout`, the byte spans of the rows and the place of the cursor, and what is read off it
-- (src/ui/input_metrics.rs).
use vexcoder.Prelude.{
  ℕ, ◌+◌, ◌-◌, min, max, Bool, ◌&&◌, ◌||◌, ◌^◌, Option, none, some, List, [], ◌∷◌, ◌++◌, get_elem?,
  length, ltb, leb, ◌==◌, if◌then◌else◌, Text, len_utf8, byte_len,
}
use vexcoder.Prelude.Options.{◌>>=◌}
use vexcoder.Prelude.Strings.{slice_to, slice_from}
use vexcoder.Editor.Boundary.{clamp_cursor_to_boundary_left}
use vexcoder.Layout.Wrap.{Unicode, char_display_width, wraps_before}

abbrev pub Span : Type 0
Span = ℕ × ℕ

pub record VisualLayout : Type 0 where
  pub spans : List Span
  pub cursor_row : ℕ
  pub cursor_col : ℕ

-- The variables of the loop; the cursor's place is none until it is set.
pub record Scan : Type 0 where
  pub spans : List Span
  pub row_start : ℕ
  pub row : ℕ
  pub col : ℕ
  pub cursor : Option Span

abbrev first_set : Option Span → Option Span → Option Span
first_set none b = b
first_set (some a) b = some a

abbrev pub set_cursor : Bool → Span → Scan → Scan
set_cursor at place s = record s { cursor = first_set s.cursor (if at then some place else none) }

-- The row ends at the offset, and the next one starts at `next`.
abbrev pub end_row : ℕ → ℕ → Scan → Scan
end_row idx next s = record s {
  spans = s.spans ++ ((s.row_start, idx) ∷ []);
  row_start = next;
  row = s.row + 1;
  col = 0;
}

abbrev pub last_span : List Span → Span
last_span [] = (0, 0)
last_span (s ∷ []) = s
last_span (s ∷ t ∷ spans) = last_span (t ∷ spans)

abbrev pub span_or : Option Span → Span → Span
span_or none b = b
span_or (some a) b = a

unfoldable pub row_count : VisualLayout → ℕ
row_count layout = max (length layout.spans) 1

unfoldable pub row_bounds : VisualLayout → ℕ → Span
row_bounds layout target_row = span_or (get_elem? layout.spans target_row) (last_span layout.spans)

-- What comes behind the loop
unfoldable pub close_layout : ℕ → ℕ → ℕ → Scan → VisualLayout
close_layout width cursor_byte len s =
    let place = span_or s.cursor (s.row, s.col) in
    let spans = s.spans ++ ((min s.row_start len, len) ∷ []) in
    if leb width s.col
    then record {
      spans = spans ++ ((len, len) ∷ []);
      cursor_row = if cursor_byte == len then place.0 + 1 else place.0;
      cursor_col = if cursor_byte == len then 0 else place.1;
    }
    else record { spans = spans; cursor_row = place.0; cursor_col = place.1 }

abbrev pub start : Scan
start = record { spans = []; row_start = 0; row = 0; col = 0; cursor = none }

-- `&input[start..end]`
unfoldable pub slice : Text → ℕ → ℕ → Option Text
slice input start end = do front ← slice_to input end; slice_from front start

module _ (unicode : Unicode) where
  unfoldable pub scan_char : ℕ → ℕ → ℕ → ℕ → Scan → Scan
  unfolding char_display_width wraps_before
  scan_char width cursor_byte idx ch s =
      let at = leb cursor_byte idx in
      if ch == b'\r'
      then set_cursor at (s.row, s.col) s
      else if ch == b'\n'
      then end_row idx (idx + len_utf8 ch) (set_cursor at (s.row, s.col) s)
      else let wraps = wraps_before unicode width s.col ch in
        let placed =
          set_cursor at (if (idx == cursor_byte) && wraps then (s.row + 1, 0) else (s.row, s.col))
            s in
        let there = if wraps then end_row idx idx placed else placed in
        record there { col = there.col + char_display_width unicode ch }

  unfoldable pub scan_from : ℕ → ℕ → ℕ → Text → Scan → Scan
  unfolding scan_char
  scan_from width cursor_byte idx [] s = s
  scan_from width cursor_byte idx (ch ∷ input) s =
      scan_from width cursor_byte (idx + len_utf8 ch) input (scan_char width cursor_byte idx ch s)

  unfoldable pub visual_layout : Text → ℕ → ℕ → VisualLayout
  unfolding scan_from close_layout clamp_cursor_to_boundary_left
  visual_layout input cursor_byte width =
      let wide = max width 1 in
      let cursor = clamp_cursor_to_boundary_left input cursor_byte in
      close_layout wide cursor (byte_len input) (scan_from wide cursor 0 input start)

  abbrev pub col_from : ℕ → ℕ → ℕ → Text → ℕ → ℕ
  col_from idx end target_col [] col = end
  col_from idx end target_col (ch ∷ s) col =
      let next = col + char_display_width unicode ch in
      let later = col_from (idx + len_utf8 ch) end target_col s next in
      if leb target_col col || ltb target_col next then idx else later

  unfoldable pub byte_for_row_col_in_span : Text → ℕ → ℕ → ℕ → Option ℕ
  unfolding slice
  byte_for_row_col_in_span input start end target_col =
      if leb end start
      then some (min start (byte_len input))
      else (do row ← slice input start end; some (col_from start end target_col row 0))

  unfoldable pub byte_for_row_col : VisualLayout → Text → ℕ → ℕ → Option ℕ
  unfolding row_bounds byte_for_row_col_in_span
  byte_for_row_col layout input target_row target_col =
      let (start, end) = row_bounds layout target_row in
      byte_for_row_col_in_span input start end target_col

  abbrev pub cursor_row_col : Text → ℕ → ℕ → ℕ × ℕ
  cursor_row_col input cursor_byte width =
      let layout = visual_layout input cursor_byte width in (layout.cursor_row, layout.cursor_col)

  abbrev pub visual_row_count : Text → ℕ → ℕ
  visual_row_count input width = row_count (visual_layout input (byte_len input) width)

  abbrev pub visual_row_bounds : Text → ℕ → ℕ → Span
  visual_row_bounds input target_row width =
      row_bounds (visual_layout input (byte_len input) width) target_row

  abbrev pub cursor_byte_for_row_col : Text → ℕ → ℕ → ℕ → Option ℕ
  cursor_byte_for_row_col input target_row target_col width =
      byte_for_row_col (visual_layout input (byte_len input) width) input target_row target_col

-- `cursor_row.saturating_add(1).saturating_sub(visible_rows.max(1))`
unfoldable pub visual_window_start : ℕ → ℕ → ℕ
visual_window_start cursor_row visible_rows = min (cursor_row + 1) (2 ^ 64 - 1) - max visible_rows 1
