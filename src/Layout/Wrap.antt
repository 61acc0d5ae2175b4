-- ===== src/Layout/Wrap.antt =====
-- `wrap_input_lines` and the measures of text (src/ui/input_metrics.rs). The width of a character,
-- and the graphemes of a text with theirs, are those of libraries.
use vexcoder.Prelude.{
  ℕ, ◌+◌, Bool, ◌&&◌, max, Option, none, some, List, [], ◌∷◌, ◌++◌, ltb, ◌==◌, if◌then◌else◌, Text,
}

pub record Unicode : Type 0 where
  -- `UnicodeWidthChar::width`, `graphemes` and `UnicodeWidthStr::width`
  pub char_width : ℕ → Option ℕ
  pub graphemes : Text → List Text
  pub str_width : Text → ℕ

pub record Wrapping : Type 0 where
  pub lines : List Text
  -- The last line, which is still open, and its width
  pub line : Text
  pub line_width : ℕ

abbrev width_or_zero : Option ℕ → ℕ
width_or_zero none = 0
width_or_zero (some n) = n

abbrev pub push_line : Wrapping → Wrapping
push_line w = record { lines = w.lines ++ (w.line ∷ []); line = []; line_width = 0 }

module _ (unicode : Unicode) where
  unfoldable pub char_display_width : ℕ → ℕ
  char_display_width ch = width_or_zero (unicode.char_width ch)

  abbrev pub push_char : ℕ → Wrapping → Wrapping
  push_char ch w = record w {
    line = w.line ++ (ch ∷ []);
    line_width = w.line_width + char_display_width ch;
  }

  unfoldable pub wraps_before : ℕ → ℕ → ℕ → Bool
  wraps_before width col ch = ltb width (col + char_display_width ch) && ltb 0 col

  unfoldable pub wrap_char : ℕ → ℕ → Wrapping → Wrapping
  unfolding char_display_width
  wrap_char width ch w =
      if ch == b'\r'
      then w
      else if ch == b'\n'
      then push_line w
      else push_char ch (if wraps_before width w.line_width ch then push_line w else w)

  unfoldable pub wrap_from : ℕ → Text → Wrapping → List Text
  wrap_from width [] w = w.lines ++ (w.line ∷ [])
  wrap_from width (ch ∷ s) w = wrap_from width s (wrap_char width ch w)

  abbrev pub wrap_input_lines : Text → ℕ → List Text
  wrap_input_lines input width =
      wrap_from (max width 1) input (record { lines = []; line = []; line_width = 0 })

  abbrev fit : ℕ → List Text → ℕ → Text
  fit max_width [] used = []
  fit max_width (g ∷ gs) used =
      let wide = unicode.str_width g in
      let rest = fit max_width gs (used + wide) in
      if ltb max_width (used + wide) && ltb 0 used then [] else g ++ rest

  unfoldable pub truncate_to_display_width : Text → ℕ → Text
  truncate_to_display_width text max_width = fit max_width (unicode.graphemes text) 0

  abbrev total : List Text → ℕ
  total [] = 0
  total (g ∷ gs) = unicode.str_width g + total gs

  unfoldable pub display_width : Text → ℕ
  display_width text = total (unicode.graphemes text)
