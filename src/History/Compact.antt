-- ===== src/History/Compact.antt =====
-- The compaction of a history to its recent turns, and the shortening of old tool results
-- (src/state/conversation/history.rs). `input.to_string()` is the text that a `tool_use` holds.
use vexcoder.Prelude.{
  ℕ, zero, suc, ◌+◌, ◌-◌, ◌*◌, ◌/◌, ◌%◌, ◌^◌, Bool, true, false, not, ◌&&◌, ◌||◌, Option, none,
  some, List, [], ◌∷◌, ◌++◌, map, leb, ltb, ◌==◌, if◌then◌else◌, length, take, drop, Text, byte_len,
  codes,
}
use vexcoder.Lines.{contains, decimal}
use vexcoder.History.Message.{
  ContentBlock, text_block, tool_use, tool_result, Content, plain, blocks, ApiMessage, is_user,
  starts_turn,
}
use vexcoder.History.Condense.{condense_block, condense_text_protocol_tool_results}

-- One turn of the loop `for i in (0..len).rev()`, with the `user_count` so far and the index at which
-- the loop broke off
unfoldable pub visit : (ApiMessage → Bool) → ℕ → ApiMessage → ℕ → ℕ × Option ℕ → ℕ × Option ℕ
visit counted keep m i (count, some boundary) = (count, some boundary)
visit counted keep m i (count, none) =
    if counted m then (count + 1, if leb keep (count + 1) then some i else none) else (count, none)

-- The loop over the messages that begin at index `i`
unfoldable pub scan_back : (ApiMessage → Bool) → ℕ → List ApiMessage → ℕ → ℕ × Option ℕ
unfolding visit
scan_back counted keep [] i = (0, none)
scan_back counted keep (m ∷ rest) i = visit counted keep m i (scan_back counted keep rest (i + 1))

-- `boundary`, where it is not the value it starts with
unfoldable pub boundary_of : (ApiMessage → Bool) → ℕ → List ApiMessage → Option ℕ
unfolding scan_back
boundary_of counted keep ms = (scan_back counted keep ms 0).1

abbrev pub with_summary : Text → Text → Text
with_summary summary_text text =
    codes "[conversation summary] "
    ++ (summary_text
        ++ (codes
              "\n\nUse the summary only as background context. Treat the current request below as authoritative and do not continue earlier file targets unless the current request asks for them.\n\n[current request]\n"
            ++ text))

unfoldable pub summarise_content : Text → Content → Content
summarise_content summary_text (plain text) = plain (with_summary summary_text text)
summarise_content summary_text (blocks bs) = blocks bs

unfoldable pub summarise_first : Text → List ApiMessage → List ApiMessage
summarise_first summary_text [] = []
summarise_first summary_text (m ∷ rest) =
    if not (length summary_text == 0) && starts_turn m
    then record m { content = summarise_content summary_text m.content } ∷ rest
    else m ∷ rest

-- The new history, and the number of messages taken out
abbrev pub cut_at : List ApiMessage → Text → Option ℕ → List ApiMessage × ℕ
cut_at ms summary_text none = (ms, 0)
cut_at ms summary_text (some zero) = (ms, 0)
cut_at ms summary_text (some (suc b)) = (summarise_first summary_text (drop (suc b) ms), suc b)

unfoldable pub compact_with_summary : List ApiMessage → ℕ → Text → List ApiMessage × ℕ
compact_with_summary ms keep_recent_turns summary_text =
    cut_at ms summary_text (boundary_of starts_turn keep_recent_turns ms)

unfoldable pub block_size : ContentBlock → ℕ
block_size (text_block text _) = byte_len text
block_size (tool_use _ _ input _) = byte_len input
block_size (tool_result _ content _) = byte_len content
block_size _ = 0

abbrev sum_of {ℓ} : {A : Type ℓ} → (A → ℕ) → List A → ℕ
sum_of f [] = 0
sum_of f (x ∷ xs) = f x + sum_of f xs

unfoldable pub content_size : Content → ℕ
unfolding block_size
content_size (plain text) = byte_len text
content_size (blocks bs) = sum_of block_size bs

unfoldable pub estimate_history_tokens : List ApiMessage → ℕ
unfolding content_size
estimate_history_tokens ms = sum_of (λ (m : ApiMessage). content_size m.content) ms / 4

pub record CompactionConfig : Type 0 where
  pub enabled : Bool
  pub threshold_percent : ℕ
  pub keep_recent_turns : ℕ
  pub summary_max_tokens : ℕ

-- The product is of `usize`, at 64 bits.
unfoldable pub should_compact_proactively : List ApiMessage → CompactionConfig → ℕ → Bool
unfolding estimate_history_tokens
should_compact_proactively ms config context_window_tokens =
    if not config.enabled || context_window_tokens == 0
    then false
    else ltb (context_window_tokens * config.threshold_percent % 2 ^ 64 / 100)
        (estimate_history_tokens ms)

unfoldable pub effective_proactive_compaction_config :
    CompactionConfig → Bool → Bool → CompactionConfig
effective_proactive_compaction_config config is_local_endpoint requires_tool_evidence =
    if config.enabled || (not is_local_endpoint || not requires_tool_evidence)
    then config
    else record {
      enabled = true;
      threshold_percent = 60;
      keep_recent_turns = 1;
      summary_max_tokens = 384;
    }

unfoldable pub should_force_local_handoff_compaction :
    List ApiMessage → CompactionConfig → Bool → Bool → Bool
should_force_local_handoff_compaction ms config is_local_endpoint requires_tool_evidence =
    not config.enabled && (is_local_endpoint && (requires_tool_evidence && leb 2 (length ms)))

-- `condense_old_tool_results`
abbrev condense_old_content : Content → Content
condense_old_content (blocks bs) = blocks (map condense_block bs)
condense_old_content (plain text) =
    if contains (codes "tool_result ") text || contains (codes "tool_error ") text
    then plain (condense_text_protocol_tool_results text)
    else plain text

unfoldable pub condense_old_message : ApiMessage → ApiMessage
condense_old_message m =
    if is_user m then record m { content = condense_old_content m.content } else m

unfoldable pub condense_before : List ApiMessage → Option ℕ → List ApiMessage
unfolding condense_old_message
condense_before ms none = ms
condense_before ms (some b) = map condense_old_message (take b ms) ++ drop b ms

unfoldable pub condense_old_tool_results : List ApiMessage → ℕ → List ApiMessage
condense_old_tool_results ms keep_turns = condense_before ms (boundary_of is_user keep_turns ms)

unfoldable pub omitted : ℕ → Text
omitted n = codes "\n...[" ++ (decimal n ++ codes " chars omitted]...\n")

unfoldable pub truncate_for_history : Text → ℕ → Text
truncate_for_history text max_chars =
    let total = length text in
    let indicator = omitted (total - max_chars) in
    let available = max_chars - length indicator in
    let keep_head = available / 2 in
    if max_chars == 0
    then []
    else if leb total max_chars
    then text
    else if leb max_chars (length indicator)
    then take max_chars text
    else take keep_head text ++ (indicator ++ drop (total - (available - keep_head)) text)
