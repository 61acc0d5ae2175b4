-- ===== src/Accumulator/Invariant.antt =====
-- What holds of the accumulator after every sequence of calls (src/runtime/delta_accumulator.rs).
use vexcoder.Prelude.{
  ℕ, ◌≤◌, ◌≡◌, refl, Bool, true, inl, inr, Option, none, some, List, [], ◌∷◌, arith, ◌==◌, if_both,
  ==_iff, Bool-cases, Option-cases, Text, byte_len, length, length-append, length-drop,
}
use vexcoder.Prelude.Assoc.{
  Assoc, IsUnique, AllValues, lookup, contains_key, insert, retain_entries, insert-IsUnique,
  remove-IsUnique, retain_entries-IsUnique, AllValues-lookup, AllValues-insert, AllValues-remove,
  AllValues-retain_entries,
}
use vexcoder.Accumulator.Json.{is_valid_json_prefix}
use vexcoder.Accumulator.Ops.{
  Reply, oldest_pending, drop_oldest_pending, over, fresh, start_tool, push_delta, accumulated,
  settle, accumulate, accumulate_entry, finish, finish_entry, stays, cleanup_finished,
  of_other_task, cleanup_task,
}
use vexcoder.Accumulator.State.{
  ToolState, Accumulator, max_stored_partial_bytes, max_tool_delta_queue_depth,
}
use vexcoder.Accumulator.Stored.{push_chars-Stores}

pub record ValidEntry (key : Text) (s : ToolState) : Type 0 where
  pub key_is_id : s.id ≡ key
  pub stored_bounded : byte_len s.partial_args ≤ max_stored_partial_bytes
  pub queue_bounded : length s.delta_queue ≤ max_tool_delta_queue_depth

pub record IsValid (a : Accumulator) : Type 0 where
  pub unique : IsUnique a.state
  pub entries : AllValues ValidEntry a.state

-- A map in place of the accumulator's
abbrev ValidMap : Assoc ToolState → Type 0
ValidMap m = IsUnique m × AllValues ValidEntry m

drop_oldest_pending-ValidMap : (m : Assoc ToolState) → ValidMap m → ValidMap (drop_oldest_pending m)
unfolding drop_oldest_pending
drop_oldest_pending-ValidMap m v = elim (Option-cases (oldest_pending m)) [
  | inl e ↦ rw (e, drop_oldest_pending) v
  | inr ((id, at), e) ↦
      rw (e, drop_oldest_pending) (remove-IsUnique id m v.0, AllValues-remove ValidEntry id m v.1)
]

insert-ValidMap :
    (id : Text) (s : ToolState) (m : Assoc ToolState)
    → ValidEntry id s
    → ValidMap m
    → ValidMap (insert id s m)
insert-ValidMap id s m e v = (insert-IsUnique id s m v.0, AllValues-insert ValidEntry id s m e v.1)

-- The call leaves a valid accumulator with the map `m`.
with_map : (a : Accumulator) {m : Assoc ToolState} → ValidMap m → IsValid (record a { state = m })
with_map a v = record { unique = v.0; entries = v.1 }

start_tool-IsValid :
    (id task_id name : Text) (now : ℕ) (a : Accumulator)
    → IsValid a
    → IsValid (start_tool id task_id name now a).1
unfolding start_tool byte_len
start_tool-IsValid id task_id name now a v =
    let old : ValidMap a.state = (v.unique, v.entries) in
    let room =
      if_both ValidMap (over a a.state) _ _ (drop_oldest_pending-ValidMap a.state old) old in
    let new_entry : ValidEntry id (fresh id task_id name now) = record {
      key_is_id = refl;
      stored_bounded = omega arith;
      queue_bounded = omega arith;
    } in
    if_both (λ (r : Reply). IsValid r.1) (contains_key id a.state) _ _ v
      (if_both (λ (r : Reply). IsValid r.1) _ _ _ (with_map a room)
        (with_map a (insert-ValidMap id (fresh id task_id name now) _ new_entry room)))

push_delta-le :
    (queue : List Text) (delta : Text)
    → length queue ≤ max_tool_delta_queue_depth
    → length (push_delta queue delta) ≤ max_tool_delta_queue_depth
unfolding push_delta
push_delta-le queue delta h = elim (Bool-cases (length queue == max_tool_delta_queue_depth)) [
  | inl full ↦
      rw (full, length-append)
        (omega
          (arith, length-drop 1 queue, (==_iff (length queue) max_tool_delta_queue_depth).0 full))
  | inr room ↦ rw (room, length-append) (ground arith)
]

accumulated-ValidEntry :
    (id : Text) (entry : ToolState) (partial_json : Text) (now : ℕ)
    → ValidEntry id entry
    → ValidEntry id (accumulated entry partial_json now)
unfolding accumulated
accumulated-ValidEntry id entry partial_json now v =
    let p = push_chars-Stores entry.partial_args partial_json v.stored_bounded in
    record {
      key_is_id = v.key_is_id;
      stored_bounded = rw p.result p.fits;
      queue_bounded = push_delta-le entry.delta_queue partial_json v.queue_bounded;
    }

settle-ValidMap : (a : Accumulator) (m : Assoc ToolState) → ValidMap m → ValidMap (settle a m)
unfolding settle
settle-ValidMap a m v = if_both ValidMap (over a m) _ _ (drop_oldest_pending-ValidMap m v) v

accumulate_entry-IsValid :
    (o : Option ToolState) (id partial_json : Text) (now : ℕ) (a : Accumulator)
    → lookup id a.state ≡ o
    → IsValid a
    → IsValid (accumulate_entry o id partial_json now a).1
unfolding accumulate_entry
accumulate_entry-IsValid none id partial_json now a e v = v
accumulate_entry-IsValid (some entry) id partial_json now a e v =
    let entry_ok = AllValues-lookup ValidEntry id a.state v.entries e in
    let grown =
      insert-ValidMap id (accumulated entry partial_json now) a.state
        (accumulated-ValidEntry id entry partial_json now entry_ok) (v.unique, v.entries) in
    elim (Bool-cases (is_valid_json_prefix entry.partial_args partial_json)) [
      | inl fits ↦ rw fits (with_map a (settle-ValidMap a _ grown))
      | inr bad ↦ rw bad v
    ]

accumulate-IsValid :
    (id partial_json : Text) (now : ℕ) (a : Accumulator)
    → IsValid a
    → IsValid (accumulate id partial_json now a).1
unfolding accumulate
accumulate-IsValid id partial_json now a v =
    accumulate_entry-IsValid (lookup id a.state) id partial_json now a refl v

finish-IsValid : (id : Text) (now : ℕ) (a : Accumulator) → IsValid a → IsValid (finish id now a).0
unfolding finish
finish-IsValid id now a v = go (lookup id a.state) refl
  where
    go : (o : Option ToolState) → lookup id a.state ≡ o → IsValid (finish_entry o id now a).0
    go none e = v
    go (some entry) e =
        let entry_ok = AllValues-lookup ValidEntry id a.state v.entries e in
        with_map a (
          insert-ValidMap id (record entry { finished = true; last_activity = now }) a.state
            (record {
              key_is_id = entry_ok.key_is_id;
              stored_bounded = entry_ok.stored_bounded;
              queue_bounded = entry_ok.queue_bounded;
            })
            (v.unique, v.entries))

retain-IsValid :
    (keep : Text → ToolState → Bool) (a : Accumulator)
    → IsValid a
    → IsValid (record a { state = retain_entries keep a.state })
retain-IsValid keep a v = with_map a (
  retain_entries-IsUnique keep a.state v.unique,
  AllValues-retain_entries ValidEntry keep a.state v.entries,
)

-- One call of any operation
pub data Call : Type 0 where
  start_call : Text → Text → Text → ℕ → Call
  accumulate_call : Text → Text → ℕ → Call
  finish_call : Text → ℕ → Call
  cleanup_finished_call : ℕ → Call
  cleanup_task_call : Text → Call

abbrev pub perform : Call → Accumulator → Accumulator
perform (start_call id task_id name now) a = (start_tool id task_id name now a).1
perform (accumulate_call id partial_json now) a = (accumulate id partial_json now a).1
perform (finish_call id now) a = (finish id now a).0
perform (cleanup_finished_call cutoff) a = (cleanup_finished cutoff a).0
perform (cleanup_task_call task_id) a = (cleanup_task task_id a).0

abbrev pub perform_all : List Call → Accumulator → Accumulator
perform_all [] a = a
perform_all (c ∷ cs) a = perform_all cs (perform c a)

perform-IsValid : (c : Call) (a : Accumulator) → IsValid a → IsValid (perform c a)
unfolding cleanup_finished cleanup_task
perform-IsValid (start_call id task_id name now) a v = start_tool-IsValid id task_id name now a v
perform-IsValid (accumulate_call id partial_json now) a v =
    accumulate-IsValid id partial_json now a v
perform-IsValid (finish_call id now) a v = finish-IsValid id now a v
perform-IsValid (cleanup_finished_call cutoff) a v = retain-IsValid (stays cutoff) a v
perform-IsValid (cleanup_task_call task_id) a v = retain-IsValid (of_other_task task_id) a v

-- After any calls on a valid accumulator, failed ones included, no tool call id stands twice, each
-- entry is stored under its own id, its stored arguments are at most 65,536 bytes, and its queue has
-- at most 32 deltas.
pub perform_all-IsValid :
    (cs : List Call) (a : Accumulator) → IsValid a → IsValid (perform_all cs a)
perform_all-IsValid [] a v = v
perform_all-IsValid (c ∷ cs) a v = perform_all-IsValid cs (perform c a) (perform-IsValid c a v)
