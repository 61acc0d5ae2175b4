-- ===== src/Scroll/Range.antt =====
-- Offsets stay in range, and the view stays where the reader left it (src/app/scroll.rs).
use vexcoder.Prelude.{
  ℕ, ◌+◌, ◌-◌, ◌≤◌, ◌<◌, min, max, ◌≡◌, refl, true, arith, leb, leb→le, saturating_add_lem,
  word_max,
}
use vexcoder.Scroll.State.{
  Scroll, ScrollAction, line_up, line_down, page_up, page_down, home, end, OutputScrollAnchor,
  bottom, top, select, apply_timeline_up, apply_timeline_down, apply_timeline_home,
  apply_timeline_end, apply_timeline_scroll_action, apply_bounded_scroll,
  apply_output_scroll_action, preserve_transcript_scroll_on_growth, is_bottom,
  clamp_transcript_scroll_offset, clamp_inspector_scroll_offset,
}

-- The selected entry exists, and is the last one while the timeline is followed.
abbrev pub InTimeline : ℕ → Scroll → Type 0
InTimeline total s =
    (s.selected_timeline_index ≤ total - 1)
    × (s.timeline_follow_mode ≡ true → s.selected_timeline_index ≡ total - 1)

InTimeline-select :
    (s : Scroll) (total index : ℕ)
    → InTimeline total (select s (min index (total - 1)) (leb (total - 1) (min index (total - 1))))
InTimeline-select s total index =
    let last = total - 1 in (omega arith, λ h. omega (arith, leb→le last (min index last) h))

-- Every scroll action on a timeline with the selection in range, and at the last entry while it
-- is followed, leaves it so, and shows the entry from its start.
pub apply_timeline_scroll_action-InTimeline :
    (s : Scroll) (action : ScrollAction) (total : ℕ)
    → InTimeline total s
    → InTimeline total (apply_timeline_scroll_action s action total)
      × ((apply_timeline_scroll_action s action total).inspector_scroll_offset ≡ 0)
unfolding apply_timeline_scroll_action apply_timeline_up apply_timeline_down apply_timeline_home
    apply_timeline_end
apply_timeline_scroll_action-InTimeline s line_up total (h, k) = ((omega (arith, h), λ f. cc), refl)
apply_timeline_scroll_action-InTimeline s line_down total h = (InTimeline-select s total _, refl)
apply_timeline_scroll_action-InTimeline s (page_up step) total (h, k) =
    ((omega (arith, h), λ f. cc), refl)
apply_timeline_scroll_action-InTimeline s (page_down step) total h =
    (InTimeline-select s total _, refl)
apply_timeline_scroll_action-InTimeline s home total h = ((omega arith, λ f. cc), refl)
apply_timeline_scroll_action-InTimeline s end total h = ((omega arith, λ f. refl), refl)

-- What the action leaves as it was: the offset that the anchor does not name.
abbrev pub Elsewhere : OutputScrollAnchor → Scroll → Scroll → Type 0
Elsewhere bottom s t = t.inspector_scroll_offset ≡ s.inspector_scroll_offset
Elsewhere top s t = t.transcript_scroll_offset ≡ s.transcript_scroll_offset

abbrev pub anchored_offset : OutputScrollAnchor → Scroll → ℕ
anchored_offset bottom s = s.transcript_scroll_offset
anchored_offset top s = s.inspector_scroll_offset

-- Behind every scroll action on the output, whatever the offsets were, the offset that the anchor
-- names is at most the last row, and the other offset and the selected entry are as they were.
pub apply_output_scroll_action-InRange :
    (s : Scroll) (anchor : OutputScrollAnchor) (total : ℕ) (action : ScrollAction)
    → let t = apply_output_scroll_action s anchor total action in
      (anchored_offset anchor t ≤ total - 1)
      × Elsewhere anchor s t
      × (t.selected_timeline_index ≡ s.selected_timeline_index)
unfolding apply_output_scroll_action clamp_transcript_scroll_offset clamp_inspector_scroll_offset
apply_output_scroll_action-InRange s bottom total action = (omega arith, refl, refl)
apply_output_scroll_action-InRange s top total action = (omega arith, refl, refl)

-- Up and down are inverse, while the move does not meet an end of the rows.
pub apply_bounded_scroll-Reverts :
    (offset step most : ℕ)
    → offset + max step 1 ≤ most
    → most ≤ word_max
    → apply_bounded_scroll (apply_bounded_scroll offset (page_down step) most) (page_up step) most
      ≡ offset
unfolding apply_bounded_scroll
apply_bounded_scroll-Reverts offset step most h k =
    omega (arith, saturating_add_lem offset (max step 1), h, k)

-- Where the rows of a transcript that is anchored at its end grow, and its offset is within the
-- old rows: an offset above 0 leaves the same distance to the first row, and at 0 nothing
-- changes.
pub preserve_transcript_scroll_on_growth-Holds :
    (s : Scroll) (expanded previous : ℕ)
    → s.transcript_scroll_offset < previous
    → previous ≤ expanded
    → expanded ≤ word_max
    → let t = preserve_transcript_scroll_on_growth s bottom expanded previous in
      (1 ≤ s.transcript_scroll_offset
        → expanded - t.transcript_scroll_offset ≡ previous - s.transcript_scroll_offset)
      × (s.transcript_scroll_offset ≡ 0 → t ≡ s)
unfolding preserve_transcript_scroll_on_growth is_bottom
preserve_transcript_scroll_on_growth-Holds s expanded previous h k l =
    let sum = saturating_add_lem s.transcript_scroll_offset (expanded - previous) in
    (λ far. ground (arith, sum), λ z. ground arith)
