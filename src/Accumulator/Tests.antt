-- ===== src/Accumulator/Tests.antt =====
-- The theorems on the accumulator at concrete inputs.
use vexcoder.Prelude.{
  ◌≡◌, refl, true, false, some, none, List, [], ◌∷◌, arith, codes, byte_len, len_utf8, text_eq,
  saturating_add,
}
use vexcoder.Prelude.Assoc.{lookup, insert, contains_key}
use vexcoder.Accumulator.Errors.{
  accumulate_refused, Accepts, accumulate-Accepts, accumulate_drops_itself,
}
use vexcoder.Accumulator.Invariant.{
  IsValid, Call, start_call, accumulate_call, finish_call, perform_all, perform_all-IsValid,
}
use vexcoder.Accumulator.Json.{is_valid_json_prefix, scan, scan_char}
use vexcoder.Accumulator.Ops.{
  ok, err, accumulate, accumulated, truncation_signal, start_tool, oldest_pending,
}
use vexcoder.Accumulator.State.{
  Accumulator, new, ToolState, malformed_partial, duplicate_id, tool_delta, estimate_memory_usage,
}
use vexcoder.Accumulator.Stored.{Stores, push_chars-Stores}

abbrev reading : ToolState
reading = record {
  id = codes "t1";
  task_id = codes "a";
  name = codes "read";
  partial_args = codes "{";
  truncated = false;
  finished = false;
  delta_queue = [];
  last_activity = 3;
}

abbrev busy : Accumulator
busy = record { state = (codes "t1", reading) ∷ []; memory_watermark_bytes = 500 }

abbrev full : Accumulator
full = record { state = (codes "t1", reading) ∷ []; memory_watermark_bytes = 100 }

busy-IsValid : IsValid busy
unfolding lookup byte_len len_utf8
busy-IsValid = record {
  unique = (refl, tt);
  entries =
      (record { key_is_id = refl; stored_bounded = omega arith; queue_bounded = omega arith }, tt);
}

new-IsValid : IsValid (new 1000)
new-IsValid = record { unique = tt; entries = tt }

abbrev calls : List Call
calls =
    start_call (codes "t1") (codes "a") (codes "read") 1
    ∷ accumulate_call (codes "t1") (codes "{}") 2
    ∷ accumulate_call (codes "t1") (codes "}") 3
    ∷ finish_call (codes "t1") 4
    ∷ []

perform_all-IsValid_example : IsValid (perform_all calls (new 1000))
perform_all-IsValid_example = perform_all-IsValid calls (new 1000) new-IsValid

push_chars-Stores_example : Stores (codes "{") (codes "}")
push_chars-Stores_example =
    push_chars-Stores (codes "{") (codes "}") (unfold byte_len len_utf8 in omega arith)

too_many : (accumulate (codes "t1") (codes "}}") 4 busy).0 ≡ err malformed_partial
unfolding accumulate lookup text_eq is_valid_json_prefix scan scan_char
too_many = refl

accumulate_refused_example :
    accumulate (codes "t1") (codes "}}") 4 busy ≡ (err malformed_partial, busy, [])
accumulate_refused_example =
    accumulate_refused (codes "t1") (codes "}}") 4 busy malformed_partial too_many

found : lookup (codes "t1") busy.state ≡ some reading
unfolding lookup text_eq
found = refl

closes : is_valid_json_prefix (codes "{") (codes "}") ≡ true
unfolding is_valid_json_prefix scan scan_char
closes = refl

accumulate-Accepts_example : Accepts (codes "t1") (codes "}") 4 busy reading
unfolding estimate_memory_usage insert text_eq accumulated byte_len len_utf8 saturating_add
accumulate-Accepts_example =
    accumulate-Accepts (codes "t1") (codes "}") 4 busy reading found closes (omega arith)
      (omega arith) (omega arith)

oldest_here :
    oldest_pending (insert (codes "t1") (accumulated reading (codes "}") 4) full.state)
    ≡ some (codes "t1", 4)
unfolding oldest_pending insert text_eq accumulated
oldest_here = refl

accumulate_drops_itself_example :
    ((accumulate (codes "t1") (codes "}") 4 full).0 ≡ ok)
    × (lookup (codes "t1") (accumulate (codes "t1") (codes "}") 4 full).1.state ≡ none)
    × ((accumulate (codes "t1") (codes "}") 4 full).2
        ≡ tool_delta (codes "t1") [] (codes "}")
          ∷ truncation_signal (codes "t1") reading (codes "}"))
unfolding estimate_memory_usage insert text_eq accumulated byte_len len_utf8 saturating_add
accumulate_drops_itself_example =
    accumulate_drops_itself (codes "t1") (codes "}") 4 full reading 4 found closes (omega arith)
      oldest_here

started : (start_tool (codes "t2") (codes "a") (codes "run") 5 busy).0 ≡ ok
unfolding start_tool contains_key lookup text_eq estimate_memory_usage byte_len len_utf8
started = refl

known :
    (start_tool (codes "t1") (codes "a") (codes "run") 5 busy).0 ≡ err (duplicate_id (codes "t1"))
unfolding start_tool contains_key lookup text_eq
known = refl
