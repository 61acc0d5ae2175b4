-- ===== src/History/Message.antt =====
-- `ApiMessage`, `Content` and `ContentBlock` (crates/vexcoder-api-types/src/lib.rs), and the test for
-- tool results. JSON values are their printed text.
use vexcoder.Prelude.{Bool, true, false, not, ◌&&◌, ◌||◌, Option, List, any, Text, text_eq, codes}
use vexcoder.Lines.{lines, starts_with, trim_start}

pub data ContentBlock : Type 0 where
  text_block : Text → Option (List Text) → ContentBlock
  tool_use : Text → Text → Text → Option Text → ContentBlock
  tool_result : Text → Text → Bool → ContentBlock
  thinking : Text → Text → ContentBlock
  thinking_data : Text → ContentBlock
  server_tool_use : Text → Text → Text → ContentBlock
  web_search_tool_result : Text → Text → ContentBlock

pub data Content : Type 0 where
  plain : Text → Content
  blocks : List ContentBlock → Content

pub record ApiMessage : Type 0 where
  pub role : Text
  pub content : Content
  pub cache_hint : Option Text

-- A line that reports a tool call, at any indentation
abbrev pub is_report : Text → Bool
is_report line =
    let trimmed = trim_start line in
    starts_with (codes "tool_result ") trimmed || starts_with (codes "tool_error ") trimmed

unfoldable pub text_protocol_tool_result_message : Text → Bool
text_protocol_tool_result_message text = any is_report (lines text)

abbrev pub is_tool_result : ContentBlock → Bool
is_tool_result (tool_result _ _ _) = true
is_tool_result _ = false

unfoldable pub content_has_tool_result : Content → Bool
content_has_tool_result (blocks bs) = any is_tool_result bs
content_has_tool_result (plain text) = text_protocol_tool_result_message text

unfoldable pub message_contains_tool_result : ApiMessage → Bool
unfolding content_has_tool_result
message_contains_tool_result m = content_has_tool_result m.content

unfoldable pub is_user : ApiMessage → Bool
is_user m = text_eq m.role (codes "user")

-- `message.role == "user" && !message_contains_tool_result(message)`
unfoldable pub starts_turn : ApiMessage → Bool
starts_turn m = is_user m && not (message_contains_tool_result m)
