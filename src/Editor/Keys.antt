-- ===== src/Editor/Keys.antt =====
-- `InputEditor::apply_input` and `apply_key` (src/ui/editor/mod.rs). Key codes and modifiers are the
-- terminal library's; those that the editor does not name are `other`.
use vexcoder.Prelude.{
  ℕ, Bool, Option, none, some, List, [], ◌∷◌, ◌&&◌, ◌==◌, if◌then◌else◌, Text, byte_len, codes,
}
use vexcoder.Prelude.Options.{◌>>=◌}
use vexcoder.Editor.Boundary.{prev_char_boundary, next_char_boundary}
use vexcoder.Editor.Edit.{insert_str, backspace, delete, submit}
use vexcoder.Editor.Recall.{history_up, history_down, undo, redo}
use vexcoder.Editor.State.{InputState}

pub data KeyCode : Type 0 where
  char : ℕ → KeyCode
  enter backspace_key delete_key left right home end_key up down esc other : KeyCode

pub record KeyStroke : Type 0 where
  pub key_code : KeyCode
  pub control : Bool
  pub shift : Bool

pub data Event : Type 0 where
  paste : Text → Event
  key : KeyStroke → Event
  other_event : Event

pub data InputAction : Type 0 where
  nothing interrupt quit : InputAction
  submitted_line : Text → InputAction

abbrev pub Outcome : Type 0
Outcome = Option (InputAction × InputState)

-- The arms of the match that end in `InputAction::None`
abbrev pub quietly : Option InputState → Outcome
quietly m = do s ← m; some (nothing, s)

abbrev pub delete_or_quit : Text → InputState → Outcome
delete_or_quit [] s = some (quit, s)
delete_or_quit (_ ∷ _) s = quietly (delete s)

abbrev pub after_submit : Option Text × InputState → Outcome
after_submit (some value, s) = some (submitted_line value, s)
after_submit (none, s) = some (nothing, s)

abbrev pub submit_if_empty : Text → InputState → Outcome
submit_if_empty [] s = some (submitted_line (codes "esc"), s)
submit_if_empty (_ ∷ _) s = some (nothing, s)

-- `KeyCode::Char(ch)`; the flag is the control modifier
unfoldable pub apply_char : ℕ → Bool → InputState → Outcome
apply_char ch control s =
    if control && ch == b'd'
    then delete_or_quit s.buffer s
    else if control && ch == b'c'
    then some (interrupt, s)
    else if control && ch == b'j'
    then quietly (insert_str (b'\n' ∷ []) s)
    else if control && ch == b'z'
    then some (nothing, undo s)
    else if control && ch == b'y'
    then some (nothing, redo s)
    else quietly (insert_str (ch ∷ []) s)

unfoldable pub apply_code : KeyCode → KeyStroke → InputState → Outcome
unfolding apply_char
apply_code (char ch) k s = apply_char ch k.control s
apply_code enter k s =
    if k.shift then quietly (insert_str (b'\n' ∷ []) s) else after_submit (submit s)
apply_code backspace_key k s = quietly (backspace s)
apply_code delete_key k s = quietly (delete s)
apply_code left k s = some (nothing, record s { cursor = prev_char_boundary s.buffer s.cursor })
apply_code right k s = do
  cursor ← next_char_boundary s.buffer s.cursor
  some (nothing, record s { cursor = cursor })
apply_code home k s = some (nothing, record s { cursor = 0 })
apply_code end_key k s = some (nothing, record s { cursor = byte_len s.buffer })
apply_code up k s = quietly (history_up s)
apply_code down k s = quietly (history_down s)
apply_code esc k s = submit_if_empty s.buffer s
apply_code other k s = some (nothing, s)

unfoldable pub apply_key : KeyStroke → InputState → Outcome
unfolding apply_code
apply_key k s = apply_code k.key_code k s

unfoldable pub apply_input : Event → InputState → Outcome
unfolding apply_key
apply_input (paste text) s = quietly (insert_str text s)
apply_input (key k) s = apply_key k s
apply_input other_event s = some (nothing, s)

-- The events of a session, one after the other, with the actions that they return.
unfoldable pub run : List Event → InputState → Option (List InputAction × InputState)
run [] s = some ([], s)
run (e ∷ es) s = do
  (action, next) ← apply_input e s
  (actions, last) ← run es next
  some (action ∷ actions, last)
