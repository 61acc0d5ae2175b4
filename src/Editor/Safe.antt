-- ===== src/Editor/Safe.antt =====
-- No key and no paste makes the editor panic, and the cursor stays on a character boundary.
use vexcoder.Prelude.{
  ℕ, zero, suc, ◌+◌, ◌-◌, ◌≤◌, ◌<◌, min, max, true, ◌≡◌, refl, subst, inl, inr, Option, none, some,
  List, [], ◌∷◌, ◌++◌, arith, leb, ltb, leb→lt, ◌==◌, Bool-cases, Text, byte_len, length,
  get_elem?-lt,
}
use vexcoder.Prelude.Options.{Returns, Returns-bind}
use vexcoder.Prelude.Strings.{
  is_char_boundary, is_char_boundary-zero, is_char_boundary-byte_len, is_char_boundary-middle,
  is_char_boundary-SplitsAt, insert_str_at, insert_str_at_boundary, replace_range_of,
  replace_range_of_boundaries,
}
use vexcoder.Editor.Boundary.{
  clamp_cursor_to_boundary_left, clamp-boundary, clamp-ge, clamp_id, prev_char_boundary-le,
  prev_char_boundary, prev_char_boundary-boundary, next_char_boundary-Returns,
}
use vexcoder.Editor.Edit.{
  max_input_bytes, insert_str, replace_range, backspace, delete, submit, submit_value, submitted,
}
use vexcoder.Editor.Recall.{
  show_line, step_up, up_from, history_up, leave_down, step_down, history_down, undo, undo_from,
  redo, redo_from,
}
use vexcoder.Editor.State.{EditorRollup, InputState, rollup, push_undo, restore}

abbrev pub InRange : Option ℕ → ℕ → Type 0
InRange none n = Unit
InRange (some i) n = i < n

pub record IsWellFormed (s : InputState) : Type 0 where
  pub at_boundary : is_char_boundary s.buffer s.cursor ≡ true
  pub in_history : InRange s.history_index (length s.history)

abbrev pub IsBoundary : ℕ → Text → Type 0
IsBoundary i t = is_char_boundary t i ≡ true

-- What an edit at boundaries makes of the cursor.
pub insert_str_at-Returns :
    (s value : Text) (i : ℕ)
    → is_char_boundary s i ≡ true
    → Returns (λ t. is_char_boundary t (i + byte_len value) ≡ true) (insert_str_at s i value)
insert_str_at-Returns s value i b =
    let p = is_char_boundary-SplitsAt s i b in
    rw (insert_str_at_boundary value p) (
      subst (λ n. is_char_boundary (p.front ++ (value ++ p.back)) (n + byte_len value) ≡ true)
        p.offset (is_char_boundary-middle p.front value p.back))

pub replace_range_of-Returns :
    (s value : Text) (start end : ℕ)
    → is_char_boundary s start ≡ true
    → is_char_boundary s end ≡ true
    → start ≤ end
    → Returns
        (λ t. is_char_boundary t (start + byte_len value) ≡ true)
        (replace_range_of s start end value)
replace_range_of-Returns s value start end b c h =
    let p = is_char_boundary-SplitsAt s start b in
    let q = is_char_boundary-SplitsAt s end c in
    rw (replace_range_of_boundaries value p q h) (
      subst (λ n. is_char_boundary (p.front ++ (value ++ q.back)) (n + byte_len value) ≡ true)
        p.offset (is_char_boundary-middle p.front value q.back))

pub insert_str-Returns :
    (value : Text) (s : InputState) → IsWellFormed s → Returns IsWellFormed (insert_str value s)
unfolding insert_str push_undo
insert_str-Returns value s w =
    elim (Bool-cases (ltb max_input_bytes (byte_len s.buffer + byte_len value))) [
      | inl full ↦ rw full (record { at_boundary = w.at_boundary; in_history = tt })
      | inr fits ↦ rw fits (
          Returns-bind (IsBoundary (cursor + byte_len value)) IsWellFormed _ _
            (insert_str_at-Returns s.buffer value cursor (clamp-boundary s.buffer s.cursor))
            (λ t b. record { at_boundary = b; in_history = tt }))
    ]
  where
    cursor : ℕ
    cursor = clamp_cursor_to_boundary_left s.buffer s.cursor

-- A call of `replace_range` succeeds whatever its ends are, in range or not.
pub replace_range-Returns :
    (start end : ℕ) (value : Text) (s : InputState)
    → Returns IsWellFormed (replace_range start end value s)
unfolding replace_range push_undo
replace_range-Returns start end value s =
    let first = clamp_cursor_to_boundary_left s.buffer (min start end) in
    Returns-bind (IsBoundary (first + byte_len value)) IsWellFormed _ _
      (replace_range_of-Returns s.buffer value first _ (clamp-boundary s.buffer (min start end))
        (clamp-boundary s.buffer (max end first))
        (clamp-ge s.buffer (max end first) first (clamp-boundary s.buffer (min start end))
          (omega arith)))
      (λ t b. record { at_boundary = b; in_history = tt })

-- Taking out the text between two boundaries leaves the cursor at the first.
pub cut-Returns :
    (s : Text) (start end : ℕ)
    → is_char_boundary s start ≡ true
    → is_char_boundary s end ≡ true
    → start ≤ end
    → Returns (λ t. is_char_boundary t start ≡ true) (replace_range_of s start end [])
cut-Returns s start end b c h =
    let e : start + byte_len [] ≡ start = unfold byte_len in omega arith in
    subst (λ n. Returns (λ t. is_char_boundary t n ≡ true) (replace_range_of s start end [])) e
      (replace_range_of-Returns s [] start end b c h)

pub backspace-Returns : (s : InputState) → IsWellFormed s → Returns IsWellFormed (backspace s)
unfolding backspace push_undo
backspace-Returns s w = elim (Bool-cases (end == 0)) [
  | inl at_start ↦ rw at_start w
  | inr inside ↦ rw inside (
      Returns-bind (IsBoundary (prev_char_boundary s.buffer end)) IsWellFormed _ _
        (cut-Returns s.buffer _ end (prev_char_boundary-boundary s.buffer end)
          (clamp-boundary s.buffer s.cursor) (prev_char_boundary-le s.buffer end))
        (λ t b. record { at_boundary = b; in_history = tt }))
]
  where
    end : ℕ
    end = clamp_cursor_to_boundary_left s.buffer s.cursor

pub delete-Returns : (s : InputState) → IsWellFormed s → Returns IsWellFormed (delete s)
unfolding delete push_undo
delete-Returns s w = elim (Bool-cases (leb (byte_len s.buffer) start)) [
  | inl at_end ↦ rw at_end w
  | inr inside ↦ rw inside (
      Returns-bind
        (λ j.
          (is_char_boundary s.buffer j ≡ true) × (clamp_cursor_to_boundary_left s.buffer start ≤ j))
        IsWellFormed _ _ (next_char_boundary-Returns s.buffer start)
        λ end h.
          Returns-bind (IsBoundary start) IsWellFormed _ _
            (cut-Returns s.buffer start end start_ok h.0
              (rw (clamp_id s.buffer start start_ok) at h.1))
            (λ t b. record { at_boundary = b; in_history = tt }))
]
  where
    start : ℕ
    start = clamp_cursor_to_boundary_left s.buffer s.cursor

    start_ok : is_char_boundary s.buffer start ≡ true
    start_ok = clamp-boundary s.buffer s.cursor

pub submit-IsWellFormed : (s : InputState) → IsWellFormed s → IsWellFormed (submit s).1
unfolding submit push_undo
submit-IsWellFormed s w = go (submitted s)
  where
    go : (value : Text) → IsWellFormed (submit_value value s).1
    go [] = w
    go (c ∷ value) = record { at_boundary = is_char_boundary-zero []; in_history = tt }

-- The state that shows a history line that is there.
show_line-Returns :
    (index : ℕ) (s : InputState)
    → index < length s.history
    → Returns IsWellFormed (show_line index s)
unfolding show_line
show_line-Returns index s h =
    let (line, e) = get_elem?-lt s.history index h in
    rw e (record { at_boundary = is_char_boundary-byte_len line; in_history = h })

pub history_up-Returns : (s : InputState) → IsWellFormed s → Returns IsWellFormed (history_up s)
unfolding history_up
history_up-Returns s w = go s.history s.history_index refl w.in_history
  where
    from_index :
        (o : Option ℕ)
        → InRange o (length s.history)
        → 0 < length s.history
        → Returns IsWellFormed (step_up o s)
    from_index none r h =
        show_line-Returns (length s.history - 1) (record s { history_stash = some (rollup s) })
          (omega arith)
    from_index (some zero) r h = show_line-Returns 0 s r
    from_index (some (suc idx)) r h = show_line-Returns idx s (omega arith)

    go :
        (lines : List Text) (o : Option ℕ)
        → s.history ≡ lines
        → InRange o (length s.history)
        → Returns IsWellFormed (up_from lines s)
    go [] o e r = w
    go (_ ∷ lines) o e r = from_index s.history_index w.in_history (rw e (omega arith))

restore-IsWellFormed :
    (snap : EditorRollup) (s : InputState)
    → InRange s.history_index (length s.history)
    → IsWellFormed (restore snap s)
unfolding restore
restore-IsWellFormed snap s r = record {
  at_boundary = clamp-boundary snap.buffer snap.cursor;
  in_history = r;
}

leave_down-IsWellFormed : (o : Option EditorRollup) (s : InputState) → IsWellFormed (leave_down o s)
unfolding leave_down
leave_down-IsWellFormed none s = record { at_boundary = is_char_boundary-zero []; in_history = tt }
leave_down-IsWellFormed (some stash) s = restore-IsWellFormed stash _ tt

pub history_down-Returns : (s : InputState) → IsWellFormed s → Returns IsWellFormed (history_down s)
unfolding history_down
history_down-Returns s w = go s.history_index
  where
    go : (o : Option ℕ) → Returns IsWellFormed (step_down o s)
    go none = w
    go (some idx) = elim (Bool-cases (leb (length s.history) (idx + 1))) [
      | inl last ↦ rw last (leave_down-IsWellFormed s.history_stash s)
      | inr more ↦ rw more (show_line-Returns (idx + 1) s (leb→lt _ _ more))
    ]

pub undo-IsWellFormed : (s : InputState) → IsWellFormed s → IsWellFormed (undo s)
unfolding undo
undo-IsWellFormed s w = go s.undo_stack
  where
    go : (stack : List EditorRollup) → IsWellFormed (undo_from stack s)
    go [] = w
    go (previous ∷ rest) = restore-IsWellFormed previous _ w.in_history

pub redo-IsWellFormed : (s : InputState) → IsWellFormed s → IsWellFormed (redo s)
unfolding redo
redo-IsWellFormed s w = go s.redo_stack
  where
    go : (stack : List EditorRollup) → IsWellFormed (redo_from stack s)
    go [] = w
    go (next ∷ rest) = restore-IsWellFormed next _ w.in_history
