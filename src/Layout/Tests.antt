-- ===== src/Layout/Tests.antt =====
-- Two lines of text at narrow widths; the cursor may stand inside a character.
use vexcoder.Prelude.{
  ◌≡◌, ℕ, max, ◌≤◌, Bool-cases, inl, inr, ltb, if◌then◌else◌, none, some, [], ◌∷◌, ◌++◌, map, arith,
  All, len_utf8, Text, codes, refl, length,
}
use vexcoder.Prelude.Options.{Returns}
use vexcoder.Prelude.Strings.{is_char_boundary}
use vexcoder.Editor.Boundary.{clamp_cursor_to_boundary_left}
use vexcoder.Editor.State.{InputState, new}
use vexcoder.Editor.Safe.{IsWellFormed}
use vexcoder.Layout.Wrap.{Unicode, char_display_width, wrap_input_lines}
use vexcoder.Layout.Rows.{visual_layout}
use vexcoder.Layout.Agree.{Agrees, visual_layout-Agrees}
use vexcoder.Layout.InRow.{InRow, visual_layout-InRow}
use vexcoder.Layout.Widths.{text_width, joined, drawn, wrap_input_lines-Fits}
use vexcoder.Layout.Moves.{
  move_cursor_visual_up, move_cursor_visual_down, move_cursor_visual_home, move_cursor_visual_end,
}
use vexcoder.Layout.Safe.{Moved, move_cursor_visual-Moved}

-- Control characters have no width, and those from 0x1100 on are two columns wide.
abbrev columns : Unicode
columns = record {
  char_width = λ c. if ltb c 32 then none else if ltb c 0x1100 then some 1 else some 2;
  graphemes = map (λ c. c ∷ []);
  str_width = length;
}

char_display_width-columns : (c : ℕ) → char_display_width columns c ≤ 2
unfolding char_display_width
char_display_width-columns c = elim (Bool-cases (ltb c 32)) [
  | inl control ↦ rw control (omega arith)
  | inr shown ↦ elim (Bool-cases (ltb c 0x1100)) [
    | inl narrow ↦ rw (shown, narrow) (omega arith)
    | inr wide ↦ rw (shown, wide) (omega arith)
  ]
]

-- The words of the text; the line feed is a character of its own.
abbrev words : Text
words = codes "hello" ++ (b'\r' ∷ b'\n' ∷ codes "né中文!")

abbrev typed : InputState
typed = record new { buffer = words; cursor = 10 }

typed-IsWellFormed : IsWellFormed typed
unfolding is_char_boundary len_utf8
typed-IsWellFormed = record { at_boundary = refl; in_history = tt }

visual_layout-Agrees_example :
    Agrees words (wrap_input_lines columns words 3) (visual_layout columns words 9 3).spans
visual_layout-Agrees_example = visual_layout-Agrees columns words 9 3

visual_layout-InRow_example :
    InRow (clamp_cursor_to_boundary_left words 9) (visual_layout columns words 9 3)
visual_layout-InRow_example = visual_layout-InRow columns words 9 3

wrap_input_lines-Fits_example :
    All (λ l. text_width columns l ≤ max 2 (max 3 1)) (wrap_input_lines columns words 3)
    × (joined (wrap_input_lines columns words 3) ≡ drawn words)
wrap_input_lines-Fits_example = wrap_input_lines-Fits columns 2 char_display_width-columns words 3

move_cursor_visual-Moved_example :
    Returns (Moved typed) (move_cursor_visual_up columns typed 4)
    × Returns (Moved typed) (move_cursor_visual_down columns typed 4)
    × Moved typed (move_cursor_visual_home columns typed 4)
    × Moved typed (move_cursor_visual_end columns typed 4)
move_cursor_visual-Moved_example = move_cursor_visual-Moved columns typed 4 typed-IsWellFormed
