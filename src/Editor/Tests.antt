-- ===== src/Editor/Tests.antt =====
-- The theorems on the editor at concrete inputs, and runs of the code.
use vexcoder.Prelude.{◌≡◌, refl, false, List, [], ◌∷◌, arith, codes, byte_len, len_utf8}
use vexcoder.Prelude.Options.{Returns}
use vexcoder.Prelude.Strings.{
  is_char_boundary, insert_str_at, replace_range_of, slice_to, slice_from,
}
use vexcoder.Editor.Boundary.{clamp_cursor_to_boundary_left, floor_boundary, prev_char_boundary}
use vexcoder.Editor.Bounded.{BoundedSession, run-IsShort}
use vexcoder.Editor.Edit.{insert_str, backspace, submit, trim_end_matches}
use vexcoder.Editor.Keys.{
  Event, paste, key, KeyCode, enter, left, up, backspace_key, nothing, submitted_line, run,
  apply_input,
}
use vexcoder.Editor.Recall.{history_up}
use vexcoder.Editor.Safe.{IsWellFormed}
use vexcoder.Editor.Size.{IsShort}
use vexcoder.Editor.State.{InputState, new, push_undo}
use vexcoder.Editor.Total.{GoodSession, run-Returns}
use vexcoder.Editor.Undo.{Reverts, inserted, perform, perform-Reverts}
use vexcoder.Editor.Walk.{ups, downs, IsBack, downs-ups}

abbrev press : KeyCode → Event
press c = key (record { key_code = c; control = false; shift = false })

-- "aé", with the cursor between the two: 233 takes two bytes.
abbrev draft : InputState
draft = record new { buffer = 97 ∷ 233 ∷ []; cursor = 1; history = codes "ls" ∷ codes "cat x" ∷ [] }

draft-IsWellFormed : IsWellFormed draft
unfolding is_char_boundary len_utf8
draft-IsWellFormed = record { at_boundary = refl; in_history = tt }

draft-IsShort : IsShort draft
unfolding byte_len len_utf8
draft-IsShort = record {
  buffer_short = omega arith;
  history_short = omega arith;
  stash_short = tt;
  undo_short = tt;
  redo_short = tt;
}

abbrev typing : List Event
typing = paste (codes "hi") ∷ press left ∷ press backspace_key ∷ press enter ∷ press up ∷ []

typing_runs :
    Returns
      (λ r.
        r.0 ≡ nothing ∷ nothing ∷ nothing ∷ submitted_line (97 ∷ b'i' ∷ 233 ∷ []) ∷ nothing ∷ [])
      (run typing draft)
unfolding run apply_input insert_str backspace submit history_up len_utf8 byte_len is_char_boundary
    slice_to slice_from insert_str_at replace_range_of clamp_cursor_to_boundary_left floor_boundary
    prev_char_boundary push_undo trim_end_matches
typing_runs = refl

run-Returns_example : Returns (GoodSession typing) (run typing draft)
run-Returns_example = run-Returns typing draft draft-IsWellFormed

run-IsShort_example : Returns (BoundedSession typing) (run typing draft)
run-IsShort_example = run-IsShort typing draft draft-IsWellFormed draft-IsShort

perform-Reverts_example : Returns (Reverts draft) (perform (inserted (codes "xyz")) draft)
perform-Reverts_example =
    perform-Reverts (inserted (codes "xyz")) draft draft-IsWellFormed
      (unfold byte_len len_utf8 in omega arith)

downs-ups_example : Returns (λ t. Returns (IsBack draft) (downs 2 t)) (ups 2 draft)
downs-ups_example = downs-ups draft 2 draft-IsWellFormed refl (omega arith) (omega arith)
