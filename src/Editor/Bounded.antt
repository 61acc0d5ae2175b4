-- ===== src/Editor/Bounded.antt =====
-- The length bound over whole sessions (src/ui/editor/mod.rs).
use vexcoder.Prelude.{
  ℕ, ◌==◌, Bool, true, false, ◌&&◌, Option, none, some, List, [], ◌∷◌, if◌then◌else◌, Text,
}
use vexcoder.Prelude.Options.{Returns, Ensures, Ensures-bind, Ensures-any, Returns-Ensures}
use vexcoder.Editor.Boundary.{next_char_boundary}
use vexcoder.Editor.Edit.{submit}
use vexcoder.Editor.Keys.{
  KeyCode, char, enter, backspace_key, delete_key, right, up, down, esc, other, KeyStroke, Event,
  paste, key, other_event, InputAction, Outcome, apply_char, apply_code, apply_input, run, quietly,
  delete_or_quit, after_submit, submit_if_empty,
}
use vexcoder.Editor.Safe.{IsWellFormed}
use vexcoder.Editor.Size.{
  IsShort, insert_str-Ensures, backspace-Ensures, delete-Ensures, submit-IsShort,
  history_up-Ensures, history_down-Ensures, undo-IsShort, redo-IsShort,
}
use vexcoder.Editor.State.{InputState}
use vexcoder.Editor.Total.{GoodSession, run-Returns}

abbrev ShortState : InputAction × InputState → Type 0
ShortState (action, s) = IsShort s

quietly-Ensures : (m : Option InputState) → Ensures IsShort m → Ensures ShortState (quietly m)
quietly-Ensures none h = tt
quietly-Ensures (some s) h = h

-- A field that the size does not read
moved : (s : InputState) (cursor : ℕ) → IsShort s → IsShort (record s { cursor = cursor })
moved s cursor w = record {
  buffer_short = w.buffer_short;
  history_short = w.history_short;
  stash_short = w.stash_short;
  undo_short = w.undo_short;
  redo_short = w.redo_short;
}

delete_or_quit-Ensures :
    (t : Text) (s : InputState) → IsShort s → Ensures ShortState (delete_or_quit t s)
delete_or_quit-Ensures [] s w = w
delete_or_quit-Ensures (_ ∷ _) s w = quietly-Ensures _ (delete-Ensures s w)

after_submit-Ensures :
    (r : Option Text × InputState) → IsShort r.1 → Ensures ShortState (after_submit r)
after_submit-Ensures (none, s) w = w
after_submit-Ensures (some value, s) w = w

submit_if_empty-Ensures :
    (t : Text) (s : InputState) → IsShort s → Ensures ShortState (submit_if_empty t s)
submit_if_empty-Ensures [] s w = w
submit_if_empty-Ensures (_ ∷ _) s w = w

Ensures-if :
    (b : Bool) (m n : Outcome)
    → Ensures ShortState m
    → Ensures ShortState n
    → Ensures ShortState (if b then m else n)
Ensures-if true m n h k = h
Ensures-if false m n h k = k

apply_char-Ensures :
    (ch : ℕ) (control : Bool) (s : InputState)
    → IsShort s
    → Ensures ShortState (apply_char ch control s)
unfolding apply_char
apply_char-Ensures ch control s w =
    Ensures-if (control && ch == b'd') _ _ (delete_or_quit-Ensures s.buffer s w) (
      Ensures-if (control && ch == b'c') _ _ w (
        Ensures-if (control && ch == b'j') _ _ (quietly-Ensures _ (insert_str-Ensures _ s w)) (
          Ensures-if (control && ch == b'z') _ _ (undo-IsShort s w) (
            Ensures-if (control && ch == b'y') _ _ (redo-IsShort s w)
              (quietly-Ensures _ (insert_str-Ensures (ch ∷ []) s w))))))

apply_code-Ensures :
    (c : KeyCode) (k : KeyStroke) (s : InputState)
    → IsShort s
    → Ensures ShortState (apply_code c k s)
unfolding apply_code
apply_code-Ensures (char ch) k s w = apply_char-Ensures ch k.control s w
apply_code-Ensures enter k s w =
    Ensures-if k.shift _ _ (quietly-Ensures _ (insert_str-Ensures _ s w))
      (after_submit-Ensures (submit s) (submit-IsShort s w))
apply_code-Ensures backspace_key k s w = quietly-Ensures _ (backspace-Ensures s w)
apply_code-Ensures delete_key k s w = quietly-Ensures _ (delete-Ensures s w)
apply_code-Ensures right k s w =
    Ensures-bind (λ _. Unit) ShortState (next_char_boundary s.buffer s.cursor) _
      (Ensures-any (λ _. Unit) _ (λ _. tt)) (λ j _. moved s j w)
apply_code-Ensures up k s w = quietly-Ensures _ (history_up-Ensures s w)
apply_code-Ensures down k s w = quietly-Ensures _ (history_down-Ensures s w)
apply_code-Ensures esc k s w = submit_if_empty-Ensures s.buffer s w
apply_code-Ensures other k s w = w
apply_code-Ensures _ k s w = moved s _ w

apply_input-Ensures :
    (e : Event) (s : InputState) → IsShort s → Ensures ShortState (apply_input e s)
unfolding apply_input
apply_input-Ensures (paste text) s w = quietly-Ensures _ (insert_str-Ensures text s w)
apply_input-Ensures (key k) s w = apply_code-Ensures k.key_code k s w
apply_input-Ensures other_event s w = w

abbrev ShortSession : List InputAction × InputState → Type 0
ShortSession (actions, s) = IsShort s

run-Ensures : (es : List Event) (s : InputState) → IsShort s → Ensures ShortSession (run es s)
unfolding run
run-Ensures [] s w = w
run-Ensures (e ∷ es) s w =
    Ensures-bind ShortState ShortSession (apply_input e s) _ (apply_input-Ensures e s w) λ r short.
      Ensures-bind ShortSession ShortSession (run es r.1) _ (run-Ensures es r.1 short) (λ t h. h)

abbrev pub BoundedSession : List Event → List InputAction × InputState → Type 0
BoundedSession es r = GoodSession es r × IsShort r.1

-- A session that starts well-formed and with no text over `MAX_INPUT_BYTES` in its buffer, history,
-- stash, undo stack and redo stack runs to its end with no panic and ends in such a state, whatever
-- is typed or pasted.
pub run-IsShort :
    (es : List Event) (s : InputState)
    → IsWellFormed s
    → IsShort s
    → Returns (BoundedSession es) (run es s)
run-IsShort es s w h =
    Returns-Ensures (GoodSession es) ShortSession (run es s) (run-Returns es s w)
      (run-Ensures es s h)
