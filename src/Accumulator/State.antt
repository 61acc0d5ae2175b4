-- ===== src/Accumulator/State.antt =====
-- The data of src/runtime/delta_accumulator.rs. An `Instant` is a number, and the peer channel is
-- the list of the signals that were offered to it, oldest first.
use vexcoder.Prelude.{ℕ, ◌+◌, Bool, List, [], ◌∷◌, Text, byte_len}
use vexcoder.Prelude.Assoc.{Assoc}

abbrev pub default_memory_watermark_bytes : ℕ
default_memory_watermark_bytes = 268_435_456

abbrev pub max_stored_partial_bytes : ℕ
max_stored_partial_bytes = 65_536

abbrev pub max_tool_delta_queue_depth : ℕ
max_tool_delta_queue_depth = 32

pub data PeerDelta : Type 0 where
  tool_start : Text → Text → Text → PeerDelta
  tool_delta : Text → Text → Text → PeerDelta
  tool_finish : Text → Text → PeerDelta
  partial_args_truncated : Text → Text → ℕ → PeerDelta

pub record ToolState : Type 0 where
  pub id : Text
  pub task_id : Text
  pub name : Text
  pub partial_args : Text
  pub truncated : Bool
  pub finished : Bool
  pub delta_queue : List Text
  pub last_activity : ℕ

pub data AccumulationError : Type 0 where
  unknown_id duplicate_id : Text → AccumulationError
  malformed_partial memory_pressure : AccumulationError

pub record Accumulator : Type 0 where
  pub state : Assoc ToolState
  pub memory_watermark_bytes : ℕ

-- `DeltaAccumulator::new`
abbrev pub new : ℕ → Accumulator
new watermark = record { state = []; memory_watermark_bytes = watermark }

unfoldable pub queue_bytes : List Text → ℕ
queue_bytes [] = 0
queue_bytes (delta ∷ rest) = byte_len delta + queue_bytes rest

unfoldable pub entry_bytes : Text → ToolState → ℕ
unfolding queue_bytes
entry_bytes id s =
    byte_len id
    + byte_len s.task_id
    + byte_len s.name
    + byte_len s.partial_args
    + queue_bytes s.delta_queue
    + 128

unfoldable pub estimate_memory_usage : Assoc ToolState → ℕ
unfolding entry_bytes
estimate_memory_usage [] = 0
estimate_memory_usage ((id, s) ∷ m) = entry_bytes id s + estimate_memory_usage m
