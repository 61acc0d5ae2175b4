-- ===== src/Channel/File.antt =====
-- `append_message` and `read_messages` (src/runtime/task_state/peer_channel.rs). The channel is the
-- text of its file, and the lock makes each call one step. A `Codec` writes a message as a line of
-- JSON and reads it back. The errors of the file system are left out.
use vexcoder.Prelude.{
  ℕ, Bool, true, false, not, ◌||◌, Option, none, some, List, [], ◌∷◌, ◌++◌, length, retain,
  is_empty, ltb, leb, ◌==◌, if◌then◌else◌, Text, codes, text_eq, byte_len,
}
use vexcoder.Lines.{trim, cons_line, lines}

abbrev pub max_peer_message_bytes : ℕ
max_peer_message_bytes = 4096

abbrev pub max_channel_depth : ℕ
max_channel_depth = 256

abbrev pub max_channel_read_batch : ℕ
max_channel_read_batch = 64

abbrev pub max_channel_file_bytes : ℕ
max_channel_file_bytes = 1048576

abbrev pub max_line_bytes : ℕ
max_line_bytes = 8192

pub data PeerMessageKind : Type 0 where
  status_note : PeerMessageKind
  correction : PeerMessageKind
  question : PeerMessageKind
  acknowledgement : PeerMessageKind

pub record PeerMessage : Type 0 where
  pub id : Text
  pub sent_at : ℕ
  pub sender_id : Text
  pub sender_agent_id : Text
  pub recipient : Text
  pub kind : PeerMessageKind
  pub content : Text
  pub parent_task_id : Text

pub record Codec : Type 0 where
  pub to_string : PeerMessage → Text
  pub from_str : Text → Option PeerMessage

-- `AppendMessageError::ChannelFull`, or the file behind the call
pub data Appended : Type 0 where
  channel_full : Appended
  appended : Text → Appended

-- The text of a file, if there is one
abbrev pub content_of : Option Text → Text
content_of none = []
content_of (some text) = text

unfoldable pub count_lines : Option Text → ℕ
unfolding lines
count_lines none = 0
count_lines (some text) = length (retain (λ l. not (is_empty (trim l))) (lines text))

abbrev pub is_big : Option Text → Bool
is_big none = false
is_big (some text) = leb max_channel_file_bytes (byte_len text)

unfoldable pub append_message : Codec → Option Text → PeerMessage → Appended
append_message codec file message =
    if leb max_channel_depth (count_lines file)
    then channel_full
    else if is_big file
    then channel_full
    else appended (content_of file ++ (codec.to_string message ++ (b'\n' ∷ [])))

-- What `BufRead::read_line` gives one after the other: each line with its line feed.
unfoldable pub read_lines : Text → List Text
read_lines [] = []
read_lines (c ∷ s) =
    let rest = read_lines s in if c == b'\n' then (c ∷ []) ∷ rest else cons_line c rest

abbrev pub addressed : Option Text → PeerMessage → Bool
addressed none msg = true
addressed (some agent_id) msg = text_eq msg.recipient (codes "*") || text_eq msg.recipient agent_id

abbrev pub selected : ℕ → Option Text → Option PeerMessage → Option PeerMessage
selected after_ms filter none = none
selected after_ms filter (some msg) =
    if leb msg.sent_at after_ms then none else if addressed filter msg then some msg else none

-- What the loop takes of a line
unfoldable pub read_one : Codec → ℕ → Option Text → Text → Option PeerMessage
read_one codec after_ms filter line =
    if ltb max_line_bytes (byte_len line) || is_empty (trim line)
    then none
    else selected after_ms filter (codec.from_str (trim line))

unfoldable pub read_loop : Codec → ℕ → Option Text → List PeerMessage → List Text → List PeerMessage
read_loop codec after_ms filter results [] = results
read_loop codec after_ms filter results (line ∷ more) = elim (read_one codec after_ms filter line) [
  | none ↦ read_loop codec after_ms filter results more
  | some msg ↦
      let found = results ++ (msg ∷ []) in
      let rest = read_loop codec after_ms filter found more in
      if leb max_channel_read_batch (length found) then found else rest
]

unfoldable pub read_messages : Codec → Option Text → ℕ → Option Text → List PeerMessage
unfolding read_lines read_loop
read_messages codec none after_ms filter = []
read_messages codec (some text) after_ms filter =
    read_loop codec after_ms filter [] (read_lines text)
