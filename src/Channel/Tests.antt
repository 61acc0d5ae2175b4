-- ===== src/Channel/Tests.antt =====
-- A channel whose messages are written as their content between braces.
use vexcoder.Lines.{trim_start, trim_end}
use vexcoder.Prelude.{
  arith, All, text_eq, is_whitespace, len_utf8, ◌≡◌, refl, ℕ, none, some, Option, List, [], ◌∷◌,
  ◌++◌, Text, codes, take, retain, if◌then◌else◌, byte_len,
}
use vexcoder.Channel.File.{
  PeerMessage, Codec, question, read_messages, read_lines, read_one, append_message, count_lines,
  max_channel_read_batch,
}
use vexcoder.Channel.Post.{Draft, posted, facade_post_peer_message, new_message}
use vexcoder.Channel.Posted.{Delivered, facade_post_peer_message-Delivered}
use vexcoder.Team.Task.{TaskState, running, session_task}
use vexcoder.Team.Store.{saved}
use vexcoder.Channel.Json.{IsJson, file_of}
use vexcoder.Channel.Sent.{is_due, read_messages-Sent}

abbrev message : ℕ → Text → Text → PeerMessage
message at to text = record {
  id = codes "m";
  sent_at = at;
  sender_id = codes "1";
  sender_agent_id = codes "a";
  recipient = to;
  kind = question;
  content = text;
  parent_task_id = codes "p";
}

abbrev early : PeerMessage
early = message 5 (codes "*") (codes "hello")

abbrev late : PeerMessage
late = message 9 (codes "b") (codes "there?")

abbrev braced : Text → Text
braced text = b'{' ∷ (text ++ (b'}' ∷ []))

unfoldable read_braced : Text → Option PeerMessage
unfolding text_eq
read_braced line =
    if text_eq line (braced (codes "hello"))
    then some early
    else if text_eq line (braced (codes "there?"))
    then some late
    else none

abbrev codec : Codec
codec = record { to_string = λ (m : PeerMessage). braced m.content; from_str = read_braced }

abbrev both : List PeerMessage
both = early ∷ late ∷ []

both-IsJson : All (IsJson codec) both
unfolding read_braced
both-IsJson =
    (((codes "hello", refl, grind arith), refl), (((codes "there?", refl, grind arith), refl), tt))

-- The second message is new to the agent that it is for.
read_messages_new : read_messages codec (some (file_of codec both)) 5 (some (codes "b")) ≡ late ∷ []
unfolding read_messages read_braced text_eq read_lines read_one trim_start trim_end byte_len
    len_utf8 is_whitespace
read_messages_new = refl

read_messages-Sent_example :
    read_messages codec (some (file_of codec both)) 5 (some (codes "b"))
    ≡ take max_channel_read_batch (retain (is_due codec 5 (some (codes "b"))) both)
read_messages-Sent_example = read_messages-Sent codec 5 (some (codes "b")) both both-IsJson

abbrev asked : Draft
asked = record {
  sender_id = codes "1";
  sender_agent_id = codes "somebody";
  recipient = codes "b";
  kind = codes "question";
  content = codes "there?";
}

abbrev parent_state : TaskState
parent_state = record {
  id = codes "p";
  updated_at = 3;
  handoff_summary = none;
  session_tasks =
      record {
        id = codes "1";
        parent_task_id = codes "p";
        agent_id = codes "a";
        prompt = codes "go";
        lifecycle_state = running;
        worktree_path = none;
        started_at = some 2;
        updated_at = 3;
        last_heartbeat = none;
        handoff_summary = none;
        supersedes = [];
      }
      ∷ [];
}

asked-posted :
    facade_post_peer_message codec
      (codes "m")
      9
      (some (file_of codec both))
      (codes "p")
      asked
      (saved parent_state)
    ≡ posted
        (new_message (codes "m") 9 (codes "p") asked (codes "a") question)
        (file_of codec (both ++ (late ∷ [])))
unfolding facade_post_peer_message append_message session_task text_eq count_lines byte_len len_utf8
    trim_end trim_start
asked-posted = refl

facade_post_peer_message-Delivered_example :
    Delivered codec both parent_state asked
      (new_message (codes "m") 9 (codes "p") asked (codes "a") question)
      (file_of codec (both ++ (late ∷ [])))
facade_post_peer_message-Delivered_example =
    facade_post_peer_message-Delivered codec (codes "m") 9 both (codes "p") asked parent_state
      (new_message (codes "m") 9 (codes "p") asked (codes "a") question)
      (file_of codec (both ++ (late ∷ []))) both-IsJson asked-posted
