-- ===== src/Layout/Moves.antt =====
-- The moves of the cursor by rows: `move_cursor_visual_up`, `_down`, `_home` and `_end`
-- (src/ui/editor/mod.rs). The answer is whether the cursor moved.
use vexcoder.Prelude.{ℕ, ◌-◌, ◌+◌, max, Bool, true, false, Option, some, leb, ◌==◌, if◌then◌else◌}
use vexcoder.Prelude.Options.{◌>>=◌}
use vexcoder.Editor.State.{InputState}
use vexcoder.Layout.Wrap.{Unicode}
use vexcoder.Layout.Rows.{
  Span, VisualLayout, visual_layout, row_bounds, row_count, byte_for_row_col, cursor_row_col,
  visual_row_bounds,
}

module _ (unicode : Unicode) where
  -- With the layout at hand
  abbrev pub up_in : VisualLayout → InputState → Option (Bool × InputState)
  up_in layout s = if layout.cursor_row == 0 then some (false, s) else (do
    cursor ← byte_for_row_col unicode layout s.buffer (layout.cursor_row - 1) layout.cursor_col
    some (true, record s { cursor = cursor }))

  abbrev pub down_in : VisualLayout → InputState → Option (Bool × InputState)
  down_in layout s = if leb (row_count layout - 1) layout.cursor_row then some (false, s) else (do
    cursor ← byte_for_row_col unicode layout s.buffer (layout.cursor_row + 1) layout.cursor_col
    some (true, record s { cursor = cursor }))

  unfoldable pub move_cursor_visual_up : InputState → ℕ → Option (Bool × InputState)
  unfolding visual_layout byte_for_row_col
  move_cursor_visual_up s width = up_in (visual_layout unicode s.buffer s.cursor (max width 1)) s

  unfoldable pub move_cursor_visual_down : InputState → ℕ → Option (Bool × InputState)
  unfolding visual_layout byte_for_row_col row_count
  move_cursor_visual_down s width =
      down_in (visual_layout unicode s.buffer s.cursor (max width 1)) s

  abbrev pub go_to : InputState → ℕ → Bool × InputState
  go_to s target = if s.cursor == target then (false, s) else (true, record s { cursor = target })

  abbrev cursor_row_bounds : InputState → ℕ → Span
  cursor_row_bounds s width =
      visual_row_bounds unicode s.buffer (cursor_row_col unicode s.buffer s.cursor width).0 width

  unfoldable pub move_cursor_visual_home : InputState → ℕ → Bool × InputState
  unfolding visual_layout row_bounds
  move_cursor_visual_home s width = go_to s (cursor_row_bounds s (max width 1)).0

  unfoldable pub move_cursor_visual_end : InputState → ℕ → Bool × InputState
  unfolding visual_layout row_bounds
  move_cursor_visual_end s width = go_to s (cursor_row_bounds s (max width 1)).1
