-- ===== src/History/Prune.antt =====
-- The windows over the history that pruning and overflow compaction keep
-- (src/state/conversation/history.rs). Both return the index of the preserved message.
use vexcoder.Prelude.{
  ℕ, ◌+◌, ◌-◌, min, max, Bool, ◌&&◌, ◌||◌, List, [], ◌∷◌, leb, ltb, ◌==◌, if◌then◌else◌, length,
  drop,
}
use vexcoder.History.Condense.{condense_all}
use vexcoder.History.Message.{ApiMessage, starts_turn}

-- The loop over `keep_start`, from index `i` with the messages that begin there; `stop` is its test on
-- the anchor.
unfoldable pub find_start : (ℕ → Bool) → List ApiMessage → ℕ → ℕ
find_start stop [] i = i
find_start stop (m ∷ rest) i = if stop i || starts_turn m then i else find_start stop rest (i + 1)

abbrev pub window : List ApiMessage → ℕ → ℕ
window messages size = length messages - size

-- `drain(0..keep_start)`, and where the preserved message is then
abbrev pub keep_from : List ApiMessage → ℕ → ℕ → List ApiMessage × ℕ
keep_from messages keep_start preserve_index =
    (drop keep_start messages, preserve_index - keep_start)

abbrev pub near_anchor : List ApiMessage → ℕ → ℕ → Bool
near_anchor messages max_api_messages preserve_index =
    let target = window messages max_api_messages in
    ltb preserve_index target && leb (target - preserve_index) 2

-- `keep_start` at the end of `prune_message_history_preserving`
unfoldable pub prune_start : List ApiMessage → ℕ → ℕ → ℕ
unfolding find_start
prune_start messages max_api_messages preserve_index =
    let target = window messages max_api_messages in
    let anchored = near_anchor messages max_api_messages preserve_index in
    let first = if anchored then preserve_index else target in
    let found = find_start (λ i. anchored && i == preserve_index) (drop first messages) first in
    let clamped = max found target in
    if leb (length messages) clamped then min first (length messages - 1) else clamped

unfoldable pub prune_message_history_preserving : List ApiMessage → ℕ → ℕ → List ApiMessage × ℕ
prune_message_history_preserving [] max_api_messages preserve_index = ([], 0)
prune_message_history_preserving (m ∷ rest) max_api_messages preserve_index =
    let messages = m ∷ rest in
    if leb (length messages) max_api_messages
    then (messages, min preserve_index (length messages - 1))
    else keep_from messages (prune_start messages max_api_messages preserve_index) preserve_index

-- `keep_start` at the end of `compact_for_context_overflow_inner`, on the condensed messages and
-- with the preserved index within them
unfoldable pub compact_start : List ApiMessage → ℕ → ℕ → ℕ
unfolding find_start
compact_start messages keep_messages preserve_index =
    let target = window messages keep_messages in
    let anchored = ltb preserve_index target in
    let first = if anchored then preserve_index else target in
    let found = find_start (λ i. anchored && i == preserve_index) (drop first messages) first in
    if leb (length messages) found then min first (length messages - 1) else found

abbrev pub compact_condensed : List ApiMessage → ℕ → ℕ → List ApiMessage × ℕ
compact_condensed messages keep_messages preserve_index =
    let last = length messages - 1 in
    if leb (length messages) keep_messages
    then (messages, min preserve_index last)
    else keep_from messages (compact_start messages keep_messages (min preserve_index last))
        (min preserve_index last)

-- The branch `keep_start == 0` of the source is `keep_from` at 0.
unfoldable pub compact_for_context_overflow_preserving :
    List ApiMessage → ℕ → ℕ → List ApiMessage × ℕ
compact_for_context_overflow_preserving [] keep_messages preserve_index = ([], 0)
compact_for_context_overflow_preserving (m ∷ rest) keep_messages preserve_index =
    compact_condensed (condense_all (m ∷ rest)) (max keep_messages 1) preserve_index
