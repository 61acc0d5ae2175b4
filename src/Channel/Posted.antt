-- ===== src/Channel/Posted.antt =====
-- What a post leaves on the channel (src/app/task_facade/peer.rs).
use vexcoder.Prelude.{
  ◌≡◌, refl, sym, ◌∙◌, ap, subst, ◌≤◌, inl, inr, ℕ, Bool, true, false, ◌&&◌, Option, none, some,
  List, [], ◌∷◌, ◌++◌, arith, All, length, length-append, ltb, ltb→le, Bool-cases, if◌then◌else◌,
  Text, byte_len,
}
use vexcoder.Team.Task.{SessionTask, TaskState, session_task}
use vexcoder.Team.Store.{saved}
use vexcoder.Channel.File.{
  PeerMessageKind, PeerMessage, Codec, channel_full, appended, max_peer_message_bytes,
  max_channel_depth, max_channel_file_bytes,
}
use vexcoder.Channel.Post.{
  PeerChannelError, content_too_long, refused, posted, parse_peer_message_kind, sent, Draft,
  new_message, post_from, post_kind, facade_post_peer_message,
}
use vexcoder.Channel.Json.{IsJson, file_of}
use vexcoder.Channel.Sent.{append_message-Sent}

-- What a post that succeeds tells: the sender is a task of the parent, and its saved agent signs
-- the message, whose content is within the bound; the channel has the message behind the others
-- and stays within its depth.
abbrev pub Delivered : Codec → List PeerMessage → TaskState → Draft → PeerMessage → Text → Type 0
Delivered codec ms state d m file =
    (t : SessionTask) × (session_task state.session_tasks d.sender_id ≡ some t)
    × (m.sender_agent_id ≡ t.agent_id)
    × (byte_len m.content ≤ max_peer_message_bytes)
    × (file ≡ file_of codec (ms ++ (m ∷ [])))
    × (length (ms ++ (m ∷ [])) ≤ max_channel_depth)

posted-inj : {m n : PeerMessage} {a b : Text} → posted m a ≡ posted n b → (m ≡ n) × (a ≡ b)
posted-inj h = (cc, cc)

never : {e : PeerChannelError} {m : PeerMessage} {a : Text} → refused e ≡ posted m a → ⊥
never h = cc

sent-posted :
    (small few : Bool) (m n : PeerMessage) (file file' : Text)
    → sent m (if few && small then appended file else channel_full) ≡ posted n file'
    → (few ≡ true) × (m ≡ n) × (file ≡ file')
sent-posted true true m n file file' h = (refl, (posted-inj h).0, (posted-inj h).1)
sent-posted false true m n file file' h = absurd cc
sent-posted true false m n file file' h = absurd cc
sent-posted false false m n file file' h = absurd cc

module _ (codec : Codec) (uuid : Text) (now : ℕ) (ms : List PeerMessage) (parent : Text) (d : Draft)
    (m : PeerMessage) (file : Text) where
  post_from-posted :
      (kind : PeerMessageKind) (o : Option SessionTask)
      → All (IsJson codec) ms
      → post_from codec uuid now (some (file_of codec ms)) parent d kind o ≡ posted m file
      → (t : SessionTask) × (o ≡ some t)
        × (new_message uuid now parent d t.agent_id kind ≡ m)
        × (file ≡ file_of codec (ms ++ (m ∷ [])))
        × (length (ms ++ (m ∷ [])) ≤ max_channel_depth)
  post_from-posted kind none json h = absurd cc
  post_from-posted kind (some t) json h =
      let n = new_message uuid now parent d t.agent_id kind in
      let (few, same, e) =
        sent-posted (ltb (byte_len (file_of codec ms)) max_channel_file_bytes)
          (ltb (length ms) max_channel_depth) n m (file_of codec (ms ++ (n ∷ []))) file
          (ap (sent n) (sym (append_message-Sent codec ms n json)) ∙ h) in
      (
        t,
        refl,
        same,
        sym e ∙ ap (λ (k : PeerMessage). file_of codec (ms ++ (k ∷ []))) same,
        ground (arith, few, length-append ms (m ∷ [])),
      )

  post_kind-posted :
      (state : TaskState) (kind : Option PeerMessageKind)
      → All (IsJson codec) ms
      → post_kind codec uuid now (some (file_of codec ms)) parent d (saved state) kind
        ≡ posted m file
      → Delivered codec ms state d m file
  post_kind-posted state none json h = absurd cc
  post_kind-posted state (some kind) json h =
      elim (Bool-cases (ltb max_peer_message_bytes (byte_len d.content))) [
        | inl long ↦
            let e : post_kind codec uuid now (some (file_of codec ms)) parent d (saved state)
                  (some kind)
                ≡ refused content_too_long =
              rw long refl in
            absurd (never (sym e ∙ h))
        | inr short ↦
            let e : post_kind codec uuid now (some (file_of codec ms)) parent d (saved state)
                  (some kind)
                ≡ post_from codec uuid now (some (file_of codec ms)) parent d kind
                    (session_task state.session_tasks d.sender_id) =
              rw short refl in
            let (t, at, same, f, n) =
              post_from-posted kind (session_task state.session_tasks d.sender_id) json
                (sym e ∙ h) in
            (
              t,
              at,
              ap (λ (k : PeerMessage). k.sender_agent_id) (sym same),
              subst (λ (k : PeerMessage). byte_len k.content ≤ max_peer_message_bytes) same
                  (ltb→le max_peer_message_bytes (byte_len d.content) short),
              f,
              n,
            )
      ]

-- A post that succeeds on a channel of sent messages: its sender is a session task of the saved
-- parent state, whose agent signs the message whatever the caller says; the content has at most
-- 4,096 bytes, and the channel has the message behind the others, at most 256 in all.
pub facade_post_peer_message-Delivered :
    (codec : Codec) (uuid : Text) (now : ℕ) (ms : List PeerMessage) (parent : Text) (d : Draft)
    (state : TaskState) (m : PeerMessage) (file : Text)
    → All (IsJson codec) ms
    → facade_post_peer_message codec uuid now (some (file_of codec ms)) parent d (saved state)
      ≡ posted m file
    → Delivered codec ms state d m file
unfolding facade_post_peer_message
facade_post_peer_message-Delivered codec uuid now ms parent d state m file json h =
    post_kind-posted codec uuid now ms parent d m file state (parse_peer_message_kind d.kind) json h
