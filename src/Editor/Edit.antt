-- ===== src/Editor/Edit.antt =====
-- The edits of the buffer (src/ui/editor/mod.rs). `none` is a panic of the string operation.
use vexcoder.Prelude.{
  ℕ, ◌+◌, min, max, Option, none, some, [], ◌∷◌, ◌++◌, leb, ltb, ◌==◌, if◌then◌else◌, Text,
  byte_len,
}
use vexcoder.Prelude.Options.{◌>>=◌}
use vexcoder.Prelude.Strings.{insert_str_at, replace_range_of}
use vexcoder.Editor.Boundary.{clamp_cursor_to_boundary_left, prev_char_boundary, next_char_boundary}
use vexcoder.Editor.State.{InputState, push_undo, leave_history}

abbrev pub max_input_bytes : ℕ
max_input_bytes = 1_048_576

-- The buffer is read before and after `push_undo`, which leaves it alone.
unfoldable pub insert_str : Text → InputState → Option InputState
insert_str value s =
    let s1 = leave_history s in
    let cursor = clamp_cursor_to_boundary_left s1.buffer s1.cursor in
    if ltb max_input_bytes (byte_len s1.buffer + byte_len value) then some s1 else do
      let s2 = push_undo s1
      buffer ← insert_str_at s2.buffer cursor value
      some (record s2 { buffer = buffer; cursor = cursor + byte_len value })

unfoldable pub replace_range : ℕ → ℕ → Text → InputState → Option InputState
replace_range start end value s =
    let first = clamp_cursor_to_boundary_left s.buffer (min start end) in
    let last = clamp_cursor_to_boundary_left s.buffer (max end first) in
    let s1 = push_undo (leave_history s) in
    do
      buffer ← replace_range_of s1.buffer first last value
      some (record s1 { buffer = buffer; cursor = first + byte_len value })

unfoldable pub backspace : InputState → Option InputState
backspace s =
    let end = clamp_cursor_to_boundary_left s.buffer s.cursor in
    if end == 0 then some s else do
      let start = prev_char_boundary s.buffer end
      let s1 = push_undo (leave_history s)
      buffer ← replace_range_of s1.buffer start end []
      some (record s1 { buffer = buffer; cursor = start })

unfoldable pub delete : InputState → Option InputState
delete s =
    let start = clamp_cursor_to_boundary_left s.buffer s.cursor in
    if leb (byte_len s.buffer) start then some s else do
      end ← next_char_boundary s.buffer start
      let s1 = push_undo (leave_history s)
      buffer ← replace_range_of s1.buffer start end []
      some (record s1 { buffer = buffer; cursor = start })

-- `str::trim_end_matches` of one character
abbrev pub trim_end_cons : ℕ → ℕ → Text → Text
trim_end_cons c x [] = if x == c then [] else x ∷ []
trim_end_cons c x (y ∷ rest) = x ∷ y ∷ rest

unfoldable pub trim_end_matches : ℕ → Text → Text
trim_end_matches c [] = []
trim_end_matches c (x ∷ s) = trim_end_cons c x (trim_end_matches c s)

abbrev pub submitted : InputState → Text
submitted s = trim_end_matches b'\r' (trim_end_matches b'\n' s.buffer)

abbrev pub submit_value : Text → InputState → Option Text × InputState
submit_value [] s = (none, s)
submit_value (c ∷ value) s =
    let s1 = push_undo (leave_history (record s { history = s.history ++ (c ∷ value) ∷ [] })) in
    (some (c ∷ value), record s1 { buffer = []; cursor = 0 })

unfoldable pub submit : InputState → Option Text × InputState
submit s = submit_value (submitted s) s
