-- ===== src/History/Tests.antt =====
-- A history of three turns, one of them with a tool result.
use vexcoder.Prelude.{
  ℕ, ◌≤◌, ◌<◌, ◌⊎◌, ◌≡◌, refl, true, false, none, some, List, [], ◌∷◌, arith, length, drop, codes,
  text_eq, byte_len, len_utf8,
}
use Prim.Native.String.{String}
use vexcoder.History.Message.{
  tool_result, plain, blocks, ApiMessage, starts_turn, is_user, message_contains_tool_result,
  content_has_tool_result, text_protocol_tool_result_message,
}
use vexcoder.Lines.{lines, trim_start}
use vexcoder.History.Prune.{
  prune_message_history_preserving, compact_for_context_overflow_preserving,
}
use vexcoder.History.Size.{Opens, prune_message_history_preserving-Keeps}
use vexcoder.History.Anchor.{
  preserved, prune_message_history_preserving-Preserves,
  compact_for_context_overflow_preserving-Preserves,
}
use vexcoder.History.Compact.{
  compact_with_summary, truncate_for_history, estimate_history_tokens, content_size, block_size,
}
use vexcoder.History.Turns.{Compacted, compact_with_summary-Compacted, truncate_for_history-length}

abbrev said : String → String → ApiMessage
said who text = record { role = codes who; content = plain (codes text); cache_hint = none }

abbrev result : ApiMessage
result = record {
  role = codes "user";
  content = blocks (tool_result (codes "t1") (codes "ok") false ∷ []);
  cache_hint = none;
}

abbrev talk : List ApiMessage
talk =
    said "user" "one"
    ∷ said "assistant" "two"
    ∷ result
    ∷ said "assistant" "three"
    ∷ said "user" "four"
    ∷ said "assistant" "five"
    ∷ []

estimate_talk : estimate_history_tokens talk ≡ 5
unfolding estimate_history_tokens content_size block_size byte_len len_utf8
estimate_talk = refl

fourth_starts : starts_turn (said "user" "four") ≡ true
unfolding starts_turn is_user message_contains_tool_result content_has_tool_result
    text_protocol_tool_result_message text_eq lines trim_start
fourth_starts = refl

Keeps_example :
    (k : ℕ) × ((prune_message_history_preserving talk 3 0).0 ≡ drop k talk)
    × Opens talk 3 k
    × ((length talk ≡ 0) ⊎ (k < length talk))
    × (length (prune_message_history_preserving talk 3 0).0 ≤ 3)
    × (length talk ≤ 3 → (prune_message_history_preserving talk 3 0).0 ≡ talk)
Keeps_example = prune_message_history_preserving-Keeps talk 3 0 (omega arith)

prune_Preserves_example :
    preserved (prune_message_history_preserving talk 3 4) ≡ some (said "user" "four")
prune_Preserves_example =
    prune_message_history_preserving-Preserves talk 3 4 (said "user" "four") (omega arith) refl
      fourth_starts

compact_Preserves_example :
    preserved (compact_for_context_overflow_preserving talk 2 4) ≡ some (said "user" "four")
compact_Preserves_example =
    compact_for_context_overflow_preserving-Preserves talk 2 4 (said "user" "four") refl
      fourth_starts

Compacted_example : Compacted talk 1 (codes "so far") (compact_with_summary talk 1 (codes "so far"))
Compacted_example = compact_with_summary-Compacted talk 1 (codes "so far")

truncate_example : length (truncate_for_history (codes "abcdef") 3) ≤ 3
truncate_example = truncate_for_history-length (codes "abcdef") 3
