-- ===== src/History/Condense.antt =====
-- The shortening of tool results (src/state/conversation/history.rs).
use vexcoder.Prelude.{
  ℕ, ◌+◌, ◌-◌, Bool, true, false, not, ◌&&◌, ◌||◌, List, [], ◌∷◌, ◌++◌, leb, ltb, ◌==◌,
  if◌then◌else◌, map, length, take, Text, codes,
}
use vexcoder.Lines.{lines, join_lines, starts_with, ends_with, decimal}
use vexcoder.History.Message.{
  ContentBlock, tool_result, Content, plain, blocks, ApiMessage, is_user,
  text_protocol_tool_result_message,
}

abbrev pub condensed_tool_result_lines : ℕ
condensed_tool_result_lines = 5

abbrev pub more_lines : ℕ → Text
more_lines n = codes "\n(" ++ (decimal n ++ codes " more lines)")

abbrev is_marked : List Text → Bool
is_marked [] = false
is_marked (line ∷ []) = ends_with (codes "more lines)") line
is_marked (line ∷ next ∷ rest) = is_marked (next ∷ rest)

unfoldable pub truncate_to_lines : Text → ℕ → Text
truncate_to_lines text max_lines =
    if is_marked (lines text)
    then text
    else if leb (length (lines text)) max_lines
    then text
    else join_lines (take max_lines (lines text)) ++ more_lines (length (lines text) - max_lines)

-- The variables of the loop in `condense_text_protocol_tool_results`
pub record Condenser : Type 0 where
  pub out : Text
  pub content_lines : ℕ
  pub total_remaining : ℕ
  pub in_tool_result : Bool

abbrev pub flushed : Condenser → Condenser
flushed s =
    if s.in_tool_result && ltb 0 s.total_remaining
    then record s { out = s.out ++ more_lines s.total_remaining; total_remaining = 0 }
    else s

-- A line behind a line break; outside a tool result the first line takes none.
abbrev pub push_line : Condenser → Text → Condenser
push_line s line = record s { out = s.out ++ (b'\n' ∷ line) }

abbrev first_line : Text → Condenser → Text → Condenser
first_line [] s line = record s { out = s.out ++ line }
first_line (_ ∷ _) s line = push_line s line

unfoldable pub condense_line : Condenser → Text → Condenser
condense_line s line =
    if ends_with (codes "more lines)") line && starts_with (codes "(") line
    then (if s.in_tool_result then push_line s line else first_line s.out s line)
    else if starts_with (codes "tool_result ") line || starts_with (codes "tool_error ") line
    then push_line (record (flushed s) { in_tool_result = true; content_lines = 0 }) line
    else if s.in_tool_result
    then (if leb (s.content_lines + 1) condensed_tool_result_lines
        then push_line (record s { content_lines = s.content_lines + 1 }) line
        else record s {
          content_lines = s.content_lines + 1;
          total_remaining = s.total_remaining + 1;
        })
    else first_line s.out s line

unfoldable pub condense_lines : Condenser → List Text → Condenser
unfolding condense_line
condense_lines s [] = s
condense_lines s (line ∷ rest) = condense_lines (condense_line s line) rest

-- `if out.starts_with('\n') && !text.starts_with('\n') { out.remove(0); }`
abbrev unindent : Text → Text → Text
unindent text [] = []
unindent text (c ∷ out) = if c == b'\n' && not (starts_with (b'\n' ∷ []) text) then out else c ∷ out

unfoldable pub condense_text_protocol_tool_results : Text → Text
unfolding condense_lines
condense_text_protocol_tool_results text =
    let start : Condenser = record {
      out = [];
      content_lines = 0;
      total_remaining = 0;
      in_tool_result = false;
    } in
    unindent text (flushed (condense_lines start (lines text))).out

unfoldable pub condense_block : ContentBlock → ContentBlock
condense_block (tool_result id content is_error) =
    tool_result id (truncate_to_lines content condensed_tool_result_lines) is_error
condense_block b = b

unfoldable pub condense_content : Content → Content
unfolding condense_block
condense_content (blocks bs) = blocks (map condense_block bs)
condense_content (plain text) =
    if text_protocol_tool_result_message text
    then plain (condense_text_protocol_tool_results text)
    else plain text

unfoldable pub condense_message : ApiMessage → ApiMessage
condense_message m = if is_user m then record m { content = condense_content m.content } else m

-- `condense_all_tool_results_for_overflow`
unfoldable pub condense_all : List ApiMessage → List ApiMessage
condense_all = map condense_message
