-- ===== src/Scroll/State.antt =====
-- The part of `TuiMode` that scrolling changes, and its actions. The rows that rendering produces
-- come in as their number.
use vexcoder.Prelude.{
  ℕ, ◌+◌, ◌-◌, ◌%◌, ◌^◌, min, max, Bool, true, false, ◌&&◌, leb, ltb, ◌==◌, if◌then◌else◌,
  saturating_add,
}

-- `ScrollAction` of src/runtime/frontend.rs
pub data ScrollAction : Type 0 where
  line_up : ScrollAction
  line_down : ScrollAction
  page_up : ℕ → ScrollAction
  page_down : ℕ → ScrollAction
  home : ScrollAction
  end : ScrollAction

pub data OutputScrollAnchor : Type 0 where
  bottom : OutputScrollAnchor
  top : OutputScrollAnchor

pub record Scroll : Type 0 where
  pub transcript_scroll_offset : ℕ
  pub inspector_scroll_offset : ℕ
  pub selected_timeline_index : ℕ
  pub timeline_follow_mode : Bool

unfoldable pub auto_follow : Scroll → Bool
auto_follow s = s.transcript_scroll_offset == 0

unfoldable pub clamp_transcript_scroll_offset : Scroll → ℕ → Scroll
clamp_transcript_scroll_offset s total_rows = record s {
  transcript_scroll_offset = min s.transcript_scroll_offset (total_rows - 1);
}

unfoldable pub clamp_inspector_scroll_offset : Scroll → ℕ → Scroll
clamp_inspector_scroll_offset s total_rows = record s {
  inspector_scroll_offset = min s.inspector_scroll_offset (total_rows - 1);
}

unfoldable pub is_bottom : OutputScrollAnchor → Bool
is_bottom bottom = true
is_bottom top = false

unfoldable pub preserve_transcript_scroll_on_growth : Scroll → OutputScrollAnchor → ℕ → ℕ → Scroll
preserve_transcript_scroll_on_growth s anchor expanded previous_expanded_rows =
    let offset = s.transcript_scroll_offset in
    let grown =
      if is_bottom anchor && ltb previous_expanded_rows expanded
      then saturating_add offset (expanded - previous_expanded_rows)
      else offset in
    if offset == 0 then s else record s { transcript_scroll_offset = min grown (expanded - 1) }

unfoldable pub clamp_transcript_after_mutation : Scroll → OutputScrollAnchor → ℕ → Scroll
clamp_transcript_after_mutation s bottom total_rows = clamp_transcript_scroll_offset s total_rows
clamp_transcript_after_mutation s top total_rows = clamp_inspector_scroll_offset s total_rows

abbrev pub select : Scroll → ℕ → Bool → Scroll
select s index follow = record s {
  selected_timeline_index = index;
  timeline_follow_mode = follow;
  inspector_scroll_offset = 0;
}

unfoldable pub apply_timeline_up : Scroll → Scroll
apply_timeline_up s = select s (s.selected_timeline_index - 1) false

-- The sum is of `usize`, at 64 bits.
unfoldable pub apply_timeline_down : Scroll → ℕ → Scroll
apply_timeline_down s total_entries =
    let last = total_entries - 1 in
    let index = min ((s.selected_timeline_index + 1) % 2 ^ 64) last in
    select s index (leb last index)

unfoldable pub apply_timeline_home : Scroll → Scroll
apply_timeline_home s = select s 0 false

unfoldable pub apply_timeline_end : Scroll → ℕ → Scroll
apply_timeline_end s total_entries = select s (total_entries - 1) true

unfoldable pub apply_timeline_scroll_action : Scroll → ScrollAction → ℕ → Scroll
unfolding apply_timeline_up apply_timeline_down apply_timeline_home apply_timeline_end
apply_timeline_scroll_action s line_up total_entries = apply_timeline_up s
apply_timeline_scroll_action s line_down total_entries = apply_timeline_down s total_entries
apply_timeline_scroll_action s (page_up step) total_entries =
    select s (s.selected_timeline_index - max step 1) false
apply_timeline_scroll_action s (page_down step) total_entries =
    let last = total_entries - 1 in
    let index = min (saturating_add s.selected_timeline_index (max step 1)) last in
    select s index (leb last index)
apply_timeline_scroll_action s home total_entries = apply_timeline_home s
apply_timeline_scroll_action s end total_entries = apply_timeline_end s total_entries

unfoldable pub apply_bounded_scroll : ℕ → ScrollAction → ℕ → ℕ
apply_bounded_scroll offset line_up most = offset - 1
apply_bounded_scroll offset line_down most = min (saturating_add offset 1) most
apply_bounded_scroll offset (page_up step) most = offset - max step 1
apply_bounded_scroll offset (page_down step) most = min (saturating_add offset (max step 1)) most
apply_bounded_scroll offset home most = 0
apply_bounded_scroll offset end most = most

-- The offset of the transcript counts from its last row.
unfoldable pub scroll_transcript : ℕ → ScrollAction → ℕ → ℕ
scroll_transcript offset line_up total_rows = saturating_add offset 1
scroll_transcript offset line_down total_rows = offset - 1
scroll_transcript offset (page_up step) total_rows = saturating_add offset (max step 1)
scroll_transcript offset (page_down step) total_rows = offset - max step 1
scroll_transcript offset home total_rows = total_rows - 1
scroll_transcript offset end total_rows = 0

unfoldable pub apply_output_scroll_action : Scroll → OutputScrollAnchor → ℕ → ScrollAction → Scroll
unfolding clamp_transcript_scroll_offset clamp_inspector_scroll_offset
apply_output_scroll_action s bottom total_rows action =
    clamp_transcript_scroll_offset
      (record s {
        transcript_scroll_offset = scroll_transcript s.transcript_scroll_offset action total_rows;
      })
      total_rows
apply_output_scroll_action s top total_rows action =
    clamp_inspector_scroll_offset
      (record s {
        inspector_scroll_offset =
            apply_bounded_scroll s.inspector_scroll_offset action (total_rows - 1);
      })
      total_rows
