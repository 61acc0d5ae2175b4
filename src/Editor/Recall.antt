-- ===== src/Editor/Recall.antt =====
-- The walk through the prompt history, undo and redo (src/ui/editor/mod.rs). `none` is the panic
-- of an index outside `history`.
use vexcoder.Prelude.{
  ℕ, zero, suc, ◌+◌, ◌-◌, Option, none, some, List, [], ◌∷◌, leb, if◌then◌else◌, Text, byte_len,
  length, get_elem?,
}
use vexcoder.Prelude.Options.{◌>>=◌}
use vexcoder.Editor.State.{EditorRollup, InputState, rollup, restore}

-- `self.input_state.history[index].clone()`, with the cursor at its end
unfoldable pub show_line : ℕ → InputState → Option InputState
show_line index s = do
  line ← get_elem? s.history index
  some (record s { history_index = some index; buffer = line; cursor = byte_len line })

-- `history_stash` is written on the first step up only.
unfoldable pub step_up : Option ℕ → InputState → Option InputState
unfolding show_line
step_up none s = show_line (length s.history - 1) (record s { history_stash = some (rollup s) })
step_up (some zero) s = show_line 0 s
step_up (some (suc idx)) s = show_line idx s

abbrev pub up_from : List Text → InputState → Option InputState
up_from [] s = some s
up_from (_ ∷ _) s = step_up s.history_index s

unfoldable pub history_up : InputState → Option InputState
unfolding step_up
history_up s = up_from s.history s

unfoldable pub leave_down : Option EditorRollup → InputState → InputState
leave_down (some stash) s = restore stash (record s { history_index = none; history_stash = none })
leave_down none s = record s { history_index = none; buffer = []; cursor = 0 }

unfoldable pub step_down : Option ℕ → InputState → Option InputState
unfolding show_line leave_down
step_down none s = some s
step_down (some idx) s =
    if leb (length s.history) (idx + 1)
    then some (leave_down s.history_stash s)
    else show_line (idx + 1) s

unfoldable pub history_down : InputState → Option InputState
unfolding step_down
history_down s = step_down s.history_index s

unfoldable pub undo_from : List EditorRollup → InputState → InputState
undo_from [] s = s
undo_from (previous ∷ rest) s =
    restore previous (record s { undo_stack = rest; redo_stack = rollup s ∷ s.redo_stack })

unfoldable pub undo : InputState → InputState
unfolding undo_from
undo s = undo_from s.undo_stack s

unfoldable pub redo_from : List EditorRollup → InputState → InputState
redo_from [] s = s
redo_from (next ∷ rest) s =
    restore next (record s { redo_stack = rest; undo_stack = rollup s ∷ s.undo_stack })

unfoldable pub redo : InputState → InputState
unfolding redo_from
redo s = redo_from s.redo_stack s
