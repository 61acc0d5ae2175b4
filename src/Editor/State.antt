-- ===== src/Editor/State.antt =====
-- `InputState`, `EditorRollup` and the operations that move a whole buffer
-- (src/ui/editor/mod.rs). The two stacks have their top first; `history` has its oldest line first.
use vexcoder.Prelude.{ℕ, Option, none, List, [], ◌∷◌, Text}
use vexcoder.Editor.Boundary.{clamp_cursor_to_boundary_left}

pub record EditorRollup : Type 0 where
  pub buffer : Text
  pub cursor : ℕ

pub record InputState : Type 0 where
  pub buffer : Text
  pub cursor : ℕ
  pub history : List Text
  pub history_index : Option ℕ
  pub history_stash : Option EditorRollup
  pub undo_stack : List EditorRollup
  pub redo_stack : List EditorRollup

-- `InputEditor::new`
abbrev pub new : InputState
new = record {
  buffer = [];
  cursor = 0;
  history = [];
  history_index = none;
  history_stash = none;
  undo_stack = [];
  redo_stack = [];
}

abbrev pub rollup : InputState → EditorRollup
rollup s = record { buffer = s.buffer; cursor = s.cursor }

unfoldable pub push_undo : InputState → InputState
push_undo s = record s { undo_stack = rollup s ∷ s.undo_stack; redo_stack = [] }

unfoldable pub restore : EditorRollup → InputState → InputState
restore snap s = record s {
  buffer = snap.buffer;
  cursor = clamp_cursor_to_boundary_left snap.buffer snap.cursor;
}

-- Every edit leaves the walk through the history.
abbrev pub leave_history : InputState → InputState
leave_history s = record s { history_index = none; history_stash = none }
