-- ===== src/Channel/Post.antt =====
-- `facade_post_peer_message` (src/app/task_facade/peer.rs). The saved state of the parent task, the
-- file of the channel, the identifier and the clock reading come in as arguments.
use vexcoder.Prelude.{
  ℕ, ◌||◌, Option, none, some, ltb, if◌then◌else◌, Text, codes, text_eq, byte_len,
}
use vexcoder.Team.Task.{SessionTask, TaskState, session_task}
use vexcoder.Team.Store.{Saved, missing, unreadable, saved}
use vexcoder.Channel.File.{
  PeerMessageKind, status_note, correction, question, acknowledgement, PeerMessage, Codec, Appended,
  channel_full, appended, max_peer_message_bytes, append_message,
}

pub data PeerChannelError : Type 0 where
  invalid_kind : PeerChannelError
  content_too_long : PeerChannelError
  parent_task_not_found : PeerChannelError
  sender_not_in_task : PeerChannelError
  full : PeerChannelError
  internal : PeerChannelError

-- The message and the file behind the call
pub data Posted : Type 0 where
  refused : PeerChannelError → Posted
  posted : PeerMessage → Text → Posted

unfoldable pub parse_peer_message_kind : Text → Option PeerMessageKind
parse_peer_message_kind s =
    if text_eq s (codes "observation")
      || (text_eq s (codes "Observation")
          || (text_eq s (codes "status-note") || text_eq s (codes "StatusNote")))
    then some status_note
    else if text_eq s (codes "correction") || text_eq s (codes "Correction")
    then some correction
    else if text_eq s (codes "question") || text_eq s (codes "Question")
    then some question
    else if text_eq s (codes "acknowledgement") || text_eq s (codes "Acknowledgement")
    then some acknowledgement
    else none

abbrev pub sent : PeerMessage → Appended → Posted
sent message channel_full = refused full
sent message (appended file) = posted message file

-- What the caller gives: the sender, the recipient, the kind and the content
pub record Draft : Type 0 where
  pub sender_id : Text
  pub sender_agent_id : Text
  pub recipient : Text
  pub kind : Text
  pub content : Text

-- `PeerMessage::new`, with the identifier that the library draws
abbrev pub new_message : Text → ℕ → Text → Draft → Text → PeerMessageKind → PeerMessage
new_message uuid now parent d agent kind = record {
  id = uuid;
  sent_at = now;
  sender_id = d.sender_id;
  sender_agent_id = agent;
  recipient = d.recipient;
  kind = kind;
  content = d.content;
  parent_task_id = parent;
}

-- The part of the call behind the loading of the state
abbrev pub post_from :
    Codec → Text → ℕ → Option Text → Text → Draft → PeerMessageKind → Option SessionTask → Posted
post_from codec uuid now file parent d kind none = refused sender_not_in_task
post_from codec uuid now file parent d kind (some sender) =
    let message = new_message uuid now parent d sender.agent_id kind in
    sent message (append_message codec file message)

abbrev pub post_in :
    Codec → Text → ℕ → Option Text → Text → Draft → PeerMessageKind → Saved TaskState → Posted
post_in codec uuid now file parent d kind missing = refused parent_task_not_found
post_in codec uuid now file parent d kind unreadable = refused internal
post_in codec uuid now file parent d kind (saved state) =
    post_from codec uuid now file parent d kind (session_task state.session_tasks d.sender_id)

abbrev pub post_kind :
    Codec
    → Text
    → ℕ
    → Option Text
    → Text
    → Draft
    → Saved TaskState
    → Option PeerMessageKind
    → Posted
post_kind codec uuid now file parent d state none = refused invalid_kind
post_kind codec uuid now file parent d state (some kind) =
    if ltb max_peer_message_bytes (byte_len d.content)
    then refused content_too_long
    else post_in codec uuid now file parent d kind state

unfoldable pub facade_post_peer_message :
    Codec → Text → ℕ → Option Text → Text → Draft → Saved TaskState → Posted
unfolding parse_peer_message_kind
facade_post_peer_message codec uuid now file parent d state =
    post_kind codec uuid now file parent d state (parse_peer_message_kind d.kind)
