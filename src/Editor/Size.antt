-- ===== src/Editor/Size.antt =====
-- Nothing that the keys and pastes put into the editor is longer than `MAX_INPUT_BYTES`
-- (src/ui/editor/mod.rs).
use vexcoder.Prelude.{
  ℕ, zero, suc, ◌+◌, ◌-◌, ◌≤◌, ◌==◌, ◌≡◌, inl, inr, Option, none, some, List, [], ◌∷◌, arith, leb,
  ltb, ltb→le, Bool-cases, Option-cases, Text, byte_len, length, get_elem?, All, All-append,
  All-get_elem?,
}
use vexcoder.Prelude.Options.{◌>>=◌, Ensures, Ensures-bind, Ensures-any}
use vexcoder.Prelude.Strings.{replace_range_of}
use vexcoder.Slices.{insert_str_at-Ensures, cut-Ensures}
use vexcoder.Editor.Boundary.{clamp_cursor_to_boundary_left, prev_char_boundary, next_char_boundary}
use vexcoder.Editor.Edit.{
  max_input_bytes, insert_str, backspace, delete, submit, submit_value, submitted, trim_end_matches,
  trim_end_cons,
}
use vexcoder.Editor.Recall.{
  show_line, step_up, up_from, history_up, leave_down, step_down, history_down, undo, undo_from,
  redo, redo_from,
}
use vexcoder.Editor.State.{EditorRollup, InputState, rollup, push_undo, restore, leave_history}

abbrev pub Short : Text → Type 0
Short t = byte_len t ≤ max_input_bytes

abbrev pub ShortRollup : EditorRollup → Type 0
ShortRollup r = Short r.buffer

abbrev pub ShortStash : Option EditorRollup → Type 0
ShortStash none = Unit
ShortStash (some r) = ShortRollup r

pub record IsShort (s : InputState) : Type 0 where
  pub buffer_short : Short s.buffer
  pub history_short : All Short s.history
  pub stash_short : ShortStash s.history_stash
  pub undo_short : All ShortRollup s.undo_stack
  pub redo_short : All ShortRollup s.redo_stack

-- `s` with a new buffer, and the old one on the undo stack
edited-IsShort :
    (s : InputState) (buffer : Text) (cursor : ℕ)
    → IsShort s
    → Short buffer
    → IsShort (record (push_undo (leave_history s)) { buffer = buffer; cursor = cursor })
unfolding push_undo
edited-IsShort s buffer cursor w h = record {
  buffer_short = h;
  history_short = w.history_short;
  stash_short = tt;
  undo_short = (w.buffer_short, w.undo_short);
  redo_short = tt;
}

pub insert_str-Ensures :
    (value : Text) (s : InputState) → IsShort s → Ensures IsShort (insert_str value s)
unfolding insert_str
insert_str-Ensures value s w =
    elim (Bool-cases (ltb max_input_bytes (byte_len s.buffer + byte_len value))) [
      | inl full ↦ rw full (record {
        buffer_short = w.buffer_short;
        history_short = w.history_short;
        stash_short = tt;
        undo_short = w.undo_short;
        redo_short = w.redo_short;
      })
      | inr fits ↦ rw fits (
          unfold push_undo in
          Ensures-bind (λ t. byte_len t ≡ byte_len s.buffer + byte_len value) IsShort _ _
            (insert_str_at-Ensures s.buffer value (clamp_cursor_to_boundary_left s.buffer s.cursor))
            (λ t e. edited-IsShort s t _ w (omega (arith, ltb→le _ _ fits))))
    ]

-- Taking text out of the buffer
cut-IsShort :
    (s : InputState) (start end cursor : ℕ)
    → IsShort s
    → Ensures IsShort (do
      buffer ← replace_range_of (push_undo (leave_history s)).buffer start end []
      some (record (push_undo (leave_history s)) { buffer = buffer; cursor = cursor }))
cut-IsShort s start end cursor w =
    unfold push_undo in
    Ensures-bind (λ t. byte_len t ≤ byte_len s.buffer) IsShort _ _ (cut-Ensures s.buffer start end)
      (λ t h. edited-IsShort s t cursor w (omega (arith, w.buffer_short)))

pub backspace-Ensures : (s : InputState) → IsShort s → Ensures IsShort (backspace s)
unfolding backspace
backspace-Ensures s w =
    let end = clamp_cursor_to_boundary_left s.buffer s.cursor in
    elim (Bool-cases (end == 0)) [
      | inl at_start ↦ rw at_start w
      | inr inside ↦ rw inside (cut-IsShort s (prev_char_boundary s.buffer end) end _ w)
    ]

pub delete-Ensures : (s : InputState) → IsShort s → Ensures IsShort (delete s)
unfolding delete
delete-Ensures s w =
    let start = clamp_cursor_to_boundary_left s.buffer s.cursor in
    elim (Bool-cases (leb (byte_len s.buffer) start)) [
      | inl at_end ↦ rw at_end w
      | inr inside ↦ rw inside (
          Ensures-bind (λ _. Unit) IsShort (next_char_boundary s.buffer start) _
            (Ensures-any (λ _. Unit) _ (λ _. tt)) (λ end _. cut-IsShort s start end start w))
    ]

trim_end_matches-le : (c : ℕ) (s : Text) → byte_len (trim_end_matches c s) ≤ byte_len s
unfolding trim_end_matches byte_len
trim_end_matches-le c [] = omega arith
trim_end_matches-le c (x ∷ s) = go (trim_end_matches c s) (trim_end_matches-le c s)
  where
    go : (t : Text) → byte_len t ≤ byte_len s → byte_len (trim_end_cons c x t) ≤ byte_len (x ∷ s)
    go [] h = ground arith
    go (y ∷ t) h = omega arith

pub submit-IsShort : (s : InputState) → IsShort s → IsShort (submit s).1
unfolding submit push_undo byte_len
submit-IsShort s w = go (submitted s) (
    omega (
      arith,
      w.buffer_short,
      trim_end_matches-le b'\n' s.buffer,
      trim_end_matches-le b'\r' (trim_end_matches b'\n' s.buffer),
    ))
  where
    go : (value : Text) → Short value → IsShort (submit_value value s).1
    go [] h = w
    go (c ∷ value) h = record {
      buffer_short = omega arith;
      history_short = All-append Short s.history _ w.history_short (h, tt);
      stash_short = tt;
      undo_short = (w.buffer_short, w.undo_short);
      redo_short = tt;
    }

show_line-Ensures : (index : ℕ) (s : InputState) → IsShort s → Ensures IsShort (show_line index s)
unfolding show_line
show_line-Ensures index s w = elim (Option-cases (get_elem? s.history index)) [
  | inl e ↦ rw e tt
  | inr (line, e) ↦ rw e (record {
    buffer_short = All-get_elem? Short s.history index w.history_short e;
    history_short = w.history_short;
    stash_short = w.stash_short;
    undo_short = w.undo_short;
    redo_short = w.redo_short;
  })
]

pub history_up-Ensures : (s : InputState) → IsShort s → Ensures IsShort (history_up s)
unfolding history_up
history_up-Ensures s w = go s.history
  where
    from_index : (o : Option ℕ) → Ensures IsShort (step_up o s)
    from_index none =
        show_line-Ensures (length s.history - 1) (record s { history_stash = some (rollup s) })
          (record {
            buffer_short = w.buffer_short;
            history_short = w.history_short;
            stash_short = w.buffer_short;
            undo_short = w.undo_short;
            redo_short = w.redo_short;
          })
    from_index (some zero) = show_line-Ensures 0 s w
    from_index (some (suc idx)) = show_line-Ensures idx s w

    go : (lines : List Text) → Ensures IsShort (up_from lines s)
    go [] = w
    go (_ ∷ _) = from_index s.history_index

leave_down-IsShort :
    (o : Option EditorRollup) (s : InputState) → ShortStash o → IsShort s → IsShort (leave_down o s)
unfolding leave_down restore byte_len
leave_down-IsShort none s h w = record {
  buffer_short = omega arith;
  history_short = w.history_short;
  stash_short = w.stash_short;
  undo_short = w.undo_short;
  redo_short = w.redo_short;
}
leave_down-IsShort (some stash) s h w = record {
  buffer_short = h;
  history_short = w.history_short;
  stash_short = tt;
  undo_short = w.undo_short;
  redo_short = w.redo_short;
}

pub history_down-Ensures : (s : InputState) → IsShort s → Ensures IsShort (history_down s)
unfolding history_down
history_down-Ensures s w = go s.history_index
  where
    go : (o : Option ℕ) → Ensures IsShort (step_down o s)
    go none = w
    go (some idx) = elim (Bool-cases (leb (length s.history) (idx + 1))) [
      | inl last ↦ rw last (leave_down-IsShort s.history_stash s w.stash_short w)
      | inr more ↦ rw more (show_line-Ensures (idx + 1) s w)
    ]

pub undo-IsShort : (s : InputState) → IsShort s → IsShort (undo s)
unfolding undo restore
undo-IsShort s w = go s.undo_stack w.undo_short
  where
    go : (stack : List EditorRollup) → All ShortRollup stack → IsShort (undo_from stack s)
    go [] h = w
    go (previous ∷ rest) h = record {
      buffer_short = h.0;
      history_short = w.history_short;
      stash_short = w.stash_short;
      undo_short = h.1;
      redo_short = (w.buffer_short, w.redo_short);
    }

pub redo-IsShort : (s : InputState) → IsShort s → IsShort (redo s)
unfolding redo restore
redo-IsShort s w = go s.redo_stack w.redo_short
  where
    go : (stack : List EditorRollup) → All ShortRollup stack → IsShort (redo_from stack s)
    go [] h = w
    go (next ∷ rest) h = record {
      buffer_short = h.0;
      history_short = w.history_short;
      stash_short = w.stash_short;
      undo_short = (w.buffer_short, w.undo_short);
      redo_short = h.1;
    }
