-- ===== src/Accumulator/Ops.antt =====
-- The operations of `DeltaAccumulator` (src/runtime/delta_accumulator.rs). `now` is the clock
-- reading that the call makes. A call returns its result, the accumulator, and the signals that it
-- offers to the peer channel.
use vexcoder.Prelude.{
  ℕ, ◌-◌, Bool, true, false, not, ◌&&◌, ◌||◌, Option, none, some, List, [], ◌∷◌, ◌++◌, ltb, leb,
  ◌==◌, if◌then◌else◌, Text, text_eq, len_utf8, byte_len, length, drop, saturating_add,
}
use vexcoder.Prelude.Assoc.{Assoc, lookup, contains_key, insert, remove, retain_entries}
use vexcoder.Accumulator.Json.{is_valid_json_prefix}
use vexcoder.Accumulator.State.{
  PeerDelta, tool_start, tool_delta, tool_finish, partial_args_truncated, ToolState,
  AccumulationError, unknown_id, duplicate_id, malformed_partial, memory_pressure, Accumulator,
  max_stored_partial_bytes, max_tool_delta_queue_depth, estimate_memory_usage,
}

pub data Result : Type 0 where
  ok : Result
  err : AccumulationError → Result

abbrev pub Reply : Type 0
Reply = Result × Accumulator × List PeerDelta

-- The first of the least: an earlier entry wins a tie.
abbrev pub keep_first : Text → ToolState → Option (Text × ℕ) → Option (Text × ℕ)
keep_first id s none = some (id, s.last_activity)
keep_first id s (some (other, at)) =
    if leb s.last_activity at then some (id, s.last_activity) else some (other, at)

-- `min_by_key` over the entries that are not finished
unfoldable pub oldest_pending : Assoc ToolState → Option (Text × ℕ)
oldest_pending [] = none
oldest_pending ((id, s) ∷ m) =
    let best = oldest_pending m in if s.finished then best else keep_first id s best

unfoldable pub drop_oldest_pending : Assoc ToolState → Assoc ToolState
drop_oldest_pending m = elim (oldest_pending m) [ none ↦ m | some (id, at) ↦ remove id m ]

abbrev pub over : Accumulator → Assoc ToolState → Bool
over a m = ltb a.memory_watermark_bytes (estimate_memory_usage m)

abbrev pub fresh : Text → Text → Text → ℕ → ToolState
fresh id task_id name now = record {
  id = id;
  task_id = task_id;
  name = name;
  partial_args = [];
  truncated = false;
  finished = false;
  delta_queue = [];
  last_activity = now;
}

unfoldable pub start_tool : Text → Text → Text → ℕ → Accumulator → Reply
start_tool id task_id name now a =
    let room = if over a a.state then drop_oldest_pending a.state else a.state in
    if contains_key id a.state
    then (err (duplicate_id id), a, [])
    else if over a a.state && over a room
    then (err memory_pressure, record a { state = room }, [])
    else (
      ok,
      record a { state = insert id (fresh id task_id name now) room },
      tool_start id task_id name ∷ [],
    )

-- The loop over `partial_json.chars()`: the text stored at its end, and whether it broke off.
unfoldable pub push_chars : Text → Text → Text × Bool
push_chars stored [] = (stored, false)
push_chars stored (ch ∷ rest) =
    if ltb max_stored_partial_bytes (saturating_add (byte_len stored) (len_utf8 ch))
    then (stored, true)
    else push_chars (stored ++ ch ∷ []) rest

unfoldable pub push_delta : List Text → Text → List Text
push_delta queue delta =
    (if length queue == max_tool_delta_queue_depth then drop 1 queue else queue) ++ delta ∷ []

unfoldable pub accumulated : ToolState → Text → ℕ → ToolState
unfolding push_chars push_delta
accumulated entry partial_json now =
    let stored = push_chars entry.partial_args partial_json in
    record entry {
      last_activity = now;
      delta_queue = push_delta entry.delta_queue partial_json;
      truncated = entry.truncated || stored.1;
      partial_args = stored.0;
    }

-- The signal of the first truncation
unfoldable pub truncation_signal : Text → ToolState → Text → List PeerDelta
truncation_signal id entry partial_json =
    if (push_chars entry.partial_args partial_json).1 && not entry.truncated
    then partial_args_truncated id entry.task_id max_stored_partial_bytes ∷ []
    else []

unfoldable pub settle : Accumulator → Assoc ToolState → Assoc ToolState
settle a m = if over a m then drop_oldest_pending m else m

-- `.map(|state| state.task_id.clone()).unwrap_or_default()`
unfoldable pub task_of : Option ToolState → Text
task_of none = []
task_of (some s) = s.task_id

unfoldable pub accumulate_entry : Option ToolState → Text → Text → ℕ → Accumulator → Reply
unfolding task_of settle
accumulate_entry none id partial_json now a = (err (unknown_id id), a, [])
accumulate_entry (some entry) id partial_json now a =
    let m = settle a (insert id (accumulated entry partial_json now) a.state) in
    if not (is_valid_json_prefix entry.partial_args partial_json)
    then (err malformed_partial, a, [])
    else (
      ok,
      record a { state = m },
      tool_delta id (task_of (lookup id m)) partial_json ∷ truncation_signal id entry partial_json,
    )

unfoldable pub accumulate : Text → Text → ℕ → Accumulator → Reply
unfolding accumulate_entry
accumulate id partial_json now a = accumulate_entry (lookup id a.state) id partial_json now a

unfoldable pub finish_entry :
    Option ToolState → Text → ℕ → Accumulator → Accumulator × List PeerDelta
finish_entry none id now a = (a, [])
finish_entry (some entry) id now a = (
  record a { state = insert id (record entry { finished = true; last_activity = now }) a.state },
  tool_finish id entry.task_id ∷ [],
)

unfoldable pub finish : Text → ℕ → Accumulator → Accumulator × List PeerDelta
unfolding finish_entry
finish id now a = finish_entry (lookup id a.state) id now a

-- The test of `cleanup_finished`; the cutoff is `now - older_than`.
abbrev pub stays : ℕ → Text → ToolState → Bool
stays cutoff id s = not s.finished || ltb cutoff s.last_activity

unfoldable pub cleanup_finished : ℕ → Accumulator → Accumulator × ℕ
cleanup_finished cutoff a =
    let m = retain_entries (stays cutoff) a.state in
    (record a { state = m }, length a.state - length m)

abbrev pub of_other_task : Text → Text → ToolState → Bool
of_other_task task_id id s = not (text_eq s.task_id task_id)

unfoldable pub cleanup_task : Text → Accumulator → Accumulator × ℕ
cleanup_task task_id a =
    let m = retain_entries (of_other_task task_id) a.state in
    (record a { state = m }, length a.state - length m)
