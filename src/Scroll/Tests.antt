-- ===== src/Scroll/Tests.antt =====
-- A timeline of four entries and a transcript of forty rows.
use vexcoder.Prelude.{◌≡◌, false, arith}
use vexcoder.Scroll.State.{Scroll, page_up, page_down, apply_bounded_scroll}
use vexcoder.Scroll.Range.{apply_bounded_scroll-Reverts}

abbrev view : Scroll
view = record {
  transcript_scroll_offset = 7;
  inspector_scroll_offset = 2;
  selected_timeline_index = 2;
  timeline_follow_mode = false;
}

bounded_Reverts_example :
    apply_bounded_scroll (apply_bounded_scroll 3 (page_down 10) 39) (page_up 10) 39 ≡ 3
bounded_Reverts_example = apply_bounded_scroll-Reverts 3 10 39 (omega arith) (omega arith)
