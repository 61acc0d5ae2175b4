-- ===== src/Editor/Walk.antt =====
-- Walking up the prompt history and down again (src/ui/editor/mod.rs).
use vexcoder.Prelude.{
  ℕ, zero, suc, ◌+◌, ◌-◌, ◌≤◌, ◌<◌, true, false, ◌≡◌, refl, sym, subst, Option, none, some, List,
  [], ◌∷◌, arith, leb, Text, byte_len, length, get_elem?, get_elem?-lt,
}
use vexcoder.Prelude.Options.{◌>>=◌, Returns, Returns-bind, Returns-value}
use vexcoder.Editor.Boundary.{clamp_id}
use vexcoder.Editor.Recall.{show_line, step_up, up_from, history_up, step_down, history_down}
use vexcoder.Editor.Safe.{IsWellFormed}
use vexcoder.Editor.State.{InputState, rollup, restore}

-- `k` presses of Up; `k` presses of Down.
abbrev pub ups : ℕ → InputState → Option InputState
ups zero s = some s
ups (suc k) s = do t ← ups k s; history_up t

abbrev pub downs : ℕ → InputState → Option InputState
downs zero s = some s
downs (suc k) s = do t ← history_down s; downs k t

-- `t` shows line `j` of the history, on a walk that began in `s`.
record Shows (s : InputState) (j : ℕ) (t : InputState) : Type 0 where
  same_history : t.history ≡ s.history
  index_is : t.history_index ≡ some j
  stash_is : t.history_stash ≡ some (rollup s)
  line_is : get_elem? s.history j ≡ some t.buffer
  at_end : t.cursor ≡ byte_len t.buffer

-- The walk is over, and the draft is back.
pub record IsBack (s t : InputState) : Type 0 where
  pub buffer_back : t.buffer ≡ s.buffer
  pub cursor_back : t.cursor ≡ s.cursor
  pub history_kept : t.history ≡ s.history
  pub index_cleared : t.history_index ≡ none
  pub stash_cleared : t.history_stash ≡ none

show_line-Shows :
    (s t : InputState) (j : ℕ)
    → j < length s.history
    → t.history ≡ s.history
    → t.history_stash ≡ some (rollup s)
    → Returns (Shows s j) (show_line j t)
unfolding show_line
show_line-Shows s t j h e stash =
    let (line, at) = get_elem?-lt s.history j h in
    rw (e, at)
      (record {
        same_history = refl;
        index_is = refl;
        stash_is = stash;
        line_is = at;
        at_end = refl;
      })

up_from-nonempty :
    (lines : List Text) (t : InputState)
    → 0 < length lines
    → up_from lines t ≡ step_up t.history_index t
up_from-nonempty [] t h = absurd (omega arith)
up_from-nonempty (_ ∷ _) t h = refl

module _ (s : InputState) where
  up_first :
      s.history_index ≡ none
      → 0 < length s.history
      → Returns (Shows s (length s.history - 1)) (history_up s)
  unfolding history_up
  up_first e h =
      let last : ℕ = length s.history - 1 in
      let stashed = record s { history_stash = some (rollup s) } in
      rw (up_from-nonempty s.history s h) (
        subst (λ o. Returns (Shows s last) (step_up o s)) (sym e)
          (show_line-Shows s stashed last (omega arith) refl refl))

  up_next :
      (t : InputState) (j : ℕ)
      → suc j < length s.history
      → Shows s (suc j) t
      → Returns (Shows s j) (history_up t)
  unfolding history_up
  up_next t j h p =
      rw (up_from-nonempty t.history t (rw p.same_history (omega arith)), p.index_is)
        (show_line-Shows s t j (omega arith) p.same_history p.stash_is)

  down_next :
      (t : InputState) (j : ℕ)
      → j + 1 < length s.history
      → Shows s j t
      → Returns (Shows s (j + 1)) (history_down t)
  unfolding history_down
  down_next t j h p =
      let more : leb (length t.history) (j + 1) ≡ false = rw p.same_history (ground arith) in
      rw (p.index_is, step_down, more) (show_line-Shows s t (j + 1) h p.same_history p.stash_is)

  down_last :
      (t : InputState) (j : ℕ)
      → IsWellFormed s
      → length s.history ≤ j + 1
      → Shows s j t
      → Returns (IsBack s) (history_down t)
  unfolding history_down restore
  down_last t j w h p =
      let last : leb (length t.history) (j + 1) ≡ true = rw p.same_history (ground arith) in
      rw (p.index_is, step_down, last, p.stash_is)
        (record {
          buffer_back = refl;
          cursor_back = clamp_id s.buffer s.cursor w.at_boundary;
          history_kept = p.same_history;
          index_cleared = refl;
          stash_cleared = refl;
        })

  -- `k` more presses of Down than Up undid leave the walk.
  downs-IsBack :
      (k : ℕ) (t : InputState) (j : ℕ)
      → IsWellFormed s
      → j + suc k ≡ length s.history
      → Shows s j t
      → Returns (IsBack s) (downs (suc k) t)
  downs-IsBack zero t j w e p =
      Returns-bind (IsBack s) (IsBack s) (history_down t) _ (down_last t j w (omega arith) p)
        (λ u b. b)
  downs-IsBack (suc k) t j w e p =
      Returns-bind (Shows s (j + 1)) (IsBack s) (history_down t) _ (down_next t j (omega arith) p)
        (λ u q. downs-IsBack k u (j + 1) w (omega arith) q)

  ups-Shows :
      (k : ℕ)
      → s.history_index ≡ none
      → k < length s.history
      → Returns (Shows s (length s.history - 1 - k)) (ups (suc k) s)
  ups-Shows zero e h =
      let same : length s.history - 1 - 0 ≡ length s.history - 1 = omega arith in
      rw same (up_first e h)
  ups-Shows (suc k) e h =
      let j : ℕ = length s.history - 1 - suc k in
      let same : length s.history - 1 - k ≡ suc j = omega arith in
      Returns-bind (Shows s (suc j)) (Shows s j) (ups (suc k) s) _
        (rw same at (ups-Shows k e (omega arith))) (λ t p. up_next t j (omega arith) p)

  -- From a draft in a well-formed state, `k` presses of Up, at least one and at most one for each
  -- line of the history, and then `k` presses of Down bring back the draft with its cursor, and
  -- leave the history as it was.
  pub downs-ups :
      (k : ℕ)
      → IsWellFormed s
      → s.history_index ≡ none
      → 0 < k
      → k ≤ length s.history
      → Returns (λ t. Returns (IsBack s) (downs k t)) (ups k s)
  downs-ups zero w e pos h = absurd (omega arith)
  downs-ups (suc k) w e pos h =
      let j : ℕ = length s.history - 1 - k in
      let (t, up, p) = Returns-value (Shows s j) (ups (suc k) s) (ups-Shows k e h) in
      rw up (downs-IsBack k t j w (omega arith) p)
