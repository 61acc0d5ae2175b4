-- ===== src/Editor/Total.antt =====
-- Whole sessions: every sequence of keys and pastes runs to its end (src/ui/editor/mod.rs).
use vexcoder.Prelude.{
  ℕ, suc, ◌≤◌, ◌==◌, Bool, true, false, ◌&&◌, ◌≡◌, refl, ap, Option, none, some, List, [], ◌∷◌,
  if◌then◌else◌, Text, length,
}
use vexcoder.Prelude.Options.{Returns, Returns-bind}
use vexcoder.Prelude.Strings.{is_char_boundary, is_char_boundary-zero, is_char_boundary-byte_len}
use vexcoder.Editor.Boundary.{
  clamp_cursor_to_boundary_left, prev_char_boundary-boundary, next_char_boundary-Returns,
}
use vexcoder.Editor.Edit.{submit}
use vexcoder.Editor.Keys.{
  KeyCode, char, enter, backspace_key, delete_key, left, right, home, end_key, up, down, esc, other,
  KeyStroke, Event, paste, key, other_event, InputAction, Outcome, apply_char, apply_code,
  apply_input, run, quietly, delete_or_quit, after_submit, submit_if_empty,
}
use vexcoder.Editor.Safe.{
  IsWellFormed, insert_str-Returns, backspace-Returns, delete-Returns, submit-IsWellFormed,
  history_up-Returns, history_down-Returns, undo-IsWellFormed, redo-IsWellFormed,
}
use vexcoder.Editor.State.{InputState}

abbrev pub Good : InputAction × InputState → Type 0
Good (action, s) = IsWellFormed s

quietly-Returns : (m : Option InputState) → Returns IsWellFormed m → Returns Good (quietly m)
quietly-Returns none h = absurd h
quietly-Returns (some s) h = h

delete_or_quit-Returns :
    (t : Text) (s : InputState) → IsWellFormed s → Returns Good (delete_or_quit t s)
delete_or_quit-Returns [] s w = w
delete_or_quit-Returns (_ ∷ _) s w = quietly-Returns _ (delete-Returns s w)

after_submit-Returns :
    (r : Option Text × InputState) → IsWellFormed r.1 → Returns Good (after_submit r)
after_submit-Returns (none, s) w = w
after_submit-Returns (some value, s) w = w

submit_if_empty-Returns :
    (t : Text) (s : InputState) → IsWellFormed s → Returns Good (submit_if_empty t s)
submit_if_empty-Returns [] s w = w
submit_if_empty-Returns (_ ∷ _) s w = w

Returns-if :
    (b : Bool) (m n : Outcome) → Returns Good m → Returns Good n → Returns Good (if b then m else n)
Returns-if true m n h k = h
Returns-if false m n h k = k

apply_char-Returns :
    (ch : ℕ) (control : Bool) (s : InputState)
    → IsWellFormed s
    → Returns Good (apply_char ch control s)
unfolding apply_char
apply_char-Returns ch control s w =
    Returns-if (control && ch == b'd') _ _ (delete_or_quit-Returns s.buffer s w) (
      Returns-if (control && ch == b'c') _ _ w (
        Returns-if (control && ch == b'j') _ _ (quietly-Returns _ (insert_str-Returns _ s w)) (
          Returns-if (control && ch == b'z') _ _ (undo-IsWellFormed s w) (
            Returns-if (control && ch == b'y') _ _ (redo-IsWellFormed s w)
              (quietly-Returns _ (insert_str-Returns (ch ∷ []) s w))))))

apply_code-Returns :
    (c : KeyCode) (k : KeyStroke) (s : InputState)
    → IsWellFormed s
    → Returns Good (apply_code c k s)
unfolding apply_code
apply_code-Returns (char ch) k s w = apply_char-Returns ch k.control s w
apply_code-Returns enter k s w =
    Returns-if k.shift _ _ (quietly-Returns _ (insert_str-Returns _ s w))
      (after_submit-Returns (submit s) (submit-IsWellFormed s w))
apply_code-Returns backspace_key k s w = quietly-Returns _ (backspace-Returns s w)
apply_code-Returns delete_key k s w = quietly-Returns _ (delete-Returns s w)
apply_code-Returns left k s w = record {
  at_boundary = prev_char_boundary-boundary s.buffer s.cursor;
  in_history = w.in_history;
}
apply_code-Returns right k s w =
    Returns-bind
      (λ j.
        (is_char_boundary s.buffer j ≡ true)
        × (clamp_cursor_to_boundary_left s.buffer s.cursor ≤ j))
      Good _ _ (next_char_boundary-Returns s.buffer s.cursor)
      (λ j h. record { at_boundary = h.0; in_history = w.in_history })
apply_code-Returns home k s w = record {
  at_boundary = is_char_boundary-zero s.buffer;
  in_history = w.in_history;
}
apply_code-Returns end_key k s w = record {
  at_boundary = is_char_boundary-byte_len s.buffer;
  in_history = w.in_history;
}
apply_code-Returns up k s w = quietly-Returns _ (history_up-Returns s w)
apply_code-Returns down k s w = quietly-Returns _ (history_down-Returns s w)
apply_code-Returns esc k s w = submit_if_empty-Returns s.buffer s w
apply_code-Returns other k s w = w

apply_input-Returns : (e : Event) (s : InputState) → IsWellFormed s → Returns Good (apply_input e s)
unfolding apply_input
apply_input-Returns (paste text) s w = quietly-Returns _ (insert_str-Returns text s w)
apply_input-Returns (key k) s w = apply_code-Returns k.key_code k s w
apply_input-Returns other_event s w = w

abbrev pub GoodSession : List Event → List InputAction × InputState → Type 0
GoodSession es (actions, s) = (length actions ≡ length es) × IsWellFormed s

-- From a well-formed state, every sequence of events runs to its end with no panic: each event
-- gives one action, the cursor is on a character boundary of the buffer, and the history index is
-- in range.
pub run-Returns :
    (es : List Event) (s : InputState) → IsWellFormed s → Returns (GoodSession es) (run es s)
unfolding run
run-Returns [] s w = (refl, w)
run-Returns (e ∷ es) s w =
    Returns-bind Good (GoodSession (e ∷ es)) (apply_input e s) _ (apply_input-Returns e s w)
      λ r good.
        Returns-bind (GoodSession es) (GoodSession (e ∷ es)) (run es r.1) _
          (run-Returns es r.1 good) (λ t h. (ap suc h.0, h.1))
