-- ===== src/Editor/Undo.antt =====
-- Undo and redo, and the way back from the prompt history (src/ui/editor/mod.rs).
use vexcoder.Prelude.{
  ℕ, ◌+◌, ◌≤◌, ◌<◌, min, max, true, false, ◌≡◌, ◌≢◌, refl, Option, some, [], ◌∷◌, arith, leb, ltb,
  ◌==◌, Text, byte_len,
}
use vexcoder.Prelude.Options.{Returns, Returns-bind}
use vexcoder.Prelude.Strings.{is_char_boundary, is_char_boundary-zero}
use vexcoder.Editor.Boundary.{
  clamp_cursor_to_boundary_left, clamp-boundary, clamp-ge, clamp_id, prev_char_boundary,
  prev_char_boundary-boundary, prev_char_boundary-le, next_char_boundary-Returns,
}
use vexcoder.Editor.Edit.{
  max_input_bytes, insert_str, replace_range, backspace, delete, submit, submit_value, submitted,
}
use vexcoder.Editor.Recall.{undo, redo}
use vexcoder.Editor.Safe.{
  IsBoundary, IsWellFormed, insert_str_at-Returns, replace_range_of-Returns, cut-Returns,
}
use vexcoder.Editor.State.{InputState, rollup, push_undo, restore}

-- `t` is `s` after one edit: the way back is on top of the undo stack, and nothing can be redone.
record IsEdit (s t : InputState) : Type 0 where
  way_back : t.undo_stack ≡ rollup s ∷ s.undo_stack
  no_redo : t.redo_stack ≡ []
  at_boundary : is_char_boundary t.buffer t.cursor ≡ true

-- Undo gives the text, the cursor and the undo stack from before, and the edit is all there is to
-- redo; redo after it gives those from after the edit, with nothing left to redo.
pub record Reverts (s t : InputState) : Type 0 where
  pub undo_buffer : (undo t).buffer ≡ s.buffer
  pub undo_cursor : (undo t).cursor ≡ s.cursor
  pub undo_undo_stack : (undo t).undo_stack ≡ s.undo_stack
  pub undo_redo_stack : (undo t).redo_stack ≡ rollup t ∷ []
  pub redo_buffer : (redo (undo t)).buffer ≡ t.buffer
  pub redo_cursor : (redo (undo t)).cursor ≡ t.cursor
  pub redo_undo_stack : (redo (undo t)).undo_stack ≡ t.undo_stack
  pub redo_redo_stack : (redo (undo t)).redo_stack ≡ []

IsEdit-Reverts : (s t : InputState) → IsWellFormed s → IsEdit s t → Reverts s t
unfolding undo redo restore
IsEdit-Reverts s t w e =
    ground
      (arith, clamp_id s.buffer s.cursor w.at_boundary, clamp_id t.buffer t.cursor e.at_boundary)

-- An insertion that is not refused for its length
insert_str-Reverts :
    (value : Text) (s : InputState)
    → IsWellFormed s
    → byte_len s.buffer + byte_len value ≤ max_input_bytes
    → Returns (Reverts s) (insert_str value s)
unfolding insert_str push_undo
insert_str-Reverts value s w h =
    let cursor = clamp_cursor_to_boundary_left s.buffer s.cursor in
    let fits : ltb max_input_bytes (byte_len s.buffer + byte_len value) ≡ false = ground arith in
    rw fits (
      Returns-bind (IsBoundary (cursor + byte_len value)) (Reverts s) _ _
        (insert_str_at-Returns s.buffer value cursor (clamp-boundary s.buffer s.cursor))
        (λ t b. IsEdit-Reverts s _ w (record { way_back = refl; no_redo = refl; at_boundary = b })))

-- Replacing any range, even with its ends swapped or out of the buffer
replace_range-Reverts :
    (start end : ℕ) (value : Text) (s : InputState)
    → IsWellFormed s
    → Returns (Reverts s) (replace_range start end value s)
unfolding replace_range push_undo
replace_range-Reverts start end value s w =
    let first = clamp_cursor_to_boundary_left s.buffer (min start end) in
    Returns-bind (IsBoundary (first + byte_len value)) (Reverts s) _ _
      (replace_range_of-Returns s.buffer value first _ (clamp-boundary s.buffer (min start end))
        (clamp-boundary s.buffer (max end first))
        (clamp-ge s.buffer (max end first) first (clamp-boundary s.buffer (min start end))
          (omega arith)))
      (λ t b. IsEdit-Reverts s _ w (record { way_back = refl; no_redo = refl; at_boundary = b }))

-- A backspace behind the start of the buffer
backspace-Reverts :
    (s : InputState) → IsWellFormed s → 0 < s.cursor → Returns (Reverts s) (backspace s)
unfolding backspace push_undo
backspace-Reverts s w h =
    let end = clamp_cursor_to_boundary_left s.buffer s.cursor in
    let inside : (end == 0) ≡ false = ground (arith, clamp_id s.buffer s.cursor w.at_boundary) in
    rw inside (
      Returns-bind (IsBoundary (prev_char_boundary s.buffer end)) (Reverts s) _ _
        (cut-Returns s.buffer _ end (prev_char_boundary-boundary s.buffer end)
          (clamp-boundary s.buffer s.cursor) (prev_char_boundary-le s.buffer end))
        (λ t b. IsEdit-Reverts s _ w (record { way_back = refl; no_redo = refl; at_boundary = b })))

submit-Reverts : (s : InputState) → IsWellFormed s → submitted s ≢ [] → Reverts s (submit s).1
unfolding submit push_undo
submit-Reverts s w ne = go (submitted s) ne
  where
    go : (value : Text) → value ≢ [] → Reverts s (submit_value value s).1
    go [] ne = absurd (ne refl)
    go (c ∷ value) ne =
        IsEdit-Reverts s _ w
          (record { way_back = refl; no_redo = refl; at_boundary = is_char_boundary-zero [] })

-- A delete before the end of the buffer
delete-Reverts :
    (s : InputState)
    → IsWellFormed s
    → s.cursor < byte_len s.buffer
    → Returns (Reverts s) (delete s)
unfolding delete push_undo
delete-Reverts s w h =
    let start = clamp_cursor_to_boundary_left s.buffer s.cursor in
    let start_ok : is_char_boundary s.buffer start ≡ true = clamp-boundary s.buffer s.cursor in
    let inside : leb (byte_len s.buffer) start ≡ false =
      ground (arith, clamp_id s.buffer s.cursor w.at_boundary) in
    rw inside (
      Returns-bind
        (λ j.
          (is_char_boundary s.buffer j ≡ true) × (clamp_cursor_to_boundary_left s.buffer start ≤ j))
        (Reverts s) _ _ (next_char_boundary-Returns s.buffer start)
        λ end e.
          Returns-bind (IsBoundary start) (Reverts s) _ _
            (cut-Returns s.buffer start end start_ok e.0
              (rw (clamp_id s.buffer start start_ok) at e.1))
            (λ t b.
              IsEdit-Reverts s _ w (record { way_back = refl; no_redo = refl; at_boundary = b })))

-- The calls that change the text
pub data Edit : Type 0 where
  inserted : Text → Edit
  replaced : ℕ → ℕ → Text → Edit
  erased_back : Edit
  erased : Edit
  sent : Edit

unfoldable pub perform : Edit → InputState → Option InputState
perform (inserted value) s = insert_str value s
perform (replaced start end value) s = replace_range start end value s
perform erased_back s = backspace s
perform erased s = delete s
perform sent s = some (submit s).1

-- Where an edit has something to do and is not refused for its length
abbrev pub Applies : Edit → InputState → Type 0
Applies (inserted value) s = byte_len s.buffer + byte_len value ≤ max_input_bytes
Applies (replaced start end value) s = Unit
Applies erased_back s = 0 < s.cursor
Applies erased s = s.cursor < byte_len s.buffer
Applies sent s = submitted s ≢ []

-- Inserting a text that is not too long, replacing any range, a backspace behind the start, a delete
-- before the end, and submitting a text that is not empty without the line breaks at its end: on a
-- well-formed state each of them succeeds; undo then brings back the text, the cursor and the undo stack from before, and redo
-- after it those from after the edit. The place in the prompt history, the stash and what could be
-- redone before the edit are not brought back.
pub perform-Reverts :
    (e : Edit) (s : InputState) → IsWellFormed s → Applies e s → Returns (Reverts s) (perform e s)
unfolding perform
perform-Reverts (inserted value) s w h = insert_str-Reverts value s w h
perform-Reverts (replaced start end value) s w h = replace_range-Reverts start end value s w
perform-Reverts erased_back s w h = backspace-Reverts s w h
perform-Reverts erased s w h = delete-Reverts s w h
perform-Reverts sent s w h = submit-Reverts s w h
