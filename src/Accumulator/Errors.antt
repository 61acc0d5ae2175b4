-- ===== src/Accumulator/Errors.antt =====
-- The error paths and the effect of each call (src/runtime/delta_accumulator.rs).
use vexcoder.Prelude.{
  ℕ, suc, ◌+◌, ◌-◌, ◌==◌, ◌≤◌, ◌<◌, ◌≡◌, ◌≢◌, refl, ap, ◌∙◌, ◌⊎◌, inl, inr, true, false, Bool-cases,
  Option, none, some, List, [], ◌∷◌, ◌++◌, drop, length, arith, if◌then◌else◌, Text, text_eq_iff,
  text_eq_refl, byte_len, len_utf8,
}
use vexcoder.Prelude.Assoc.{Assoc, lookup, insert, remove, lookup-insert, lookup-remove}
use vexcoder.Accumulator.Json.{is_valid_json_prefix}
use vexcoder.Accumulator.Ops.{
  ok, err, oldest_pending, drop_oldest_pending, over, accumulated, truncation_signal, accumulate,
  accumulate_entry, push_chars, push_delta,
}
use vexcoder.Accumulator.State.{
  tool_delta, partial_args_truncated, ToolState, AccumulationError, Accumulator,
  estimate_memory_usage, max_stored_partial_bytes, max_tool_delta_queue_depth,
}
use vexcoder.Accumulator.Stored.{push_chars-Stores}

-- A delta that is refused, for its id or for its text, changes nothing and sends nothing.
pub accumulate_refused :
    (id partial_json : Text) (now : ℕ) (a : Accumulator) (e : AccumulationError)
    → (accumulate id partial_json now a).0 ≡ err e
    → accumulate id partial_json now a ≡ (err e, a, [])
unfolding accumulate
accumulate_refused id partial_json now a e h = go (lookup id a.state) h
  where
    go :
        (o : Option ToolState)
        → (accumulate_entry o id partial_json now a).0 ≡ err e
        → accumulate_entry o id partial_json now a ≡ (err e, a, [])
    go none h = unfold accumulate_entry in ground arith
    go (some entry) h = unfold accumulate_entry in ground arith

-- Which delta is taken: the id must be known, and the stored text with the delta a JSON prefix.
pub accumulate_ok :
    (id partial_json : Text) (now : ℕ) (a : Accumulator) (entry : ToolState)
    → lookup id a.state ≡ some entry
    → is_valid_json_prefix entry.partial_args partial_json ≡ true
    → (accumulate id partial_json now a).0 ≡ ok
unfolding accumulate accumulate_entry
accumulate_ok id partial_json now a entry e v = rw (e, accumulate_entry, v)

-- The queue keeps the last deltas, as many as it may hold.
push_delta_lem :
    (queue : List Text) (delta : Text)
    → length queue ≤ max_tool_delta_queue_depth
    → push_delta queue delta
      ≡ drop (suc (length queue) - max_tool_delta_queue_depth) (queue ++ (delta ∷ []))
unfolding push_delta
push_delta_lem [] delta h = refl
push_delta_lem (d ∷ queue) delta h =
    elim (Bool-cases (length (d ∷ queue) == max_tool_delta_queue_depth)) [
      | inl full ↦
          let one : suc (length (d ∷ queue)) - max_tool_delta_queue_depth ≡ 1 = ground arith in
          rw (full, one) refl
      | inr room ↦
          let none_out : suc (length (d ∷ queue)) - max_tool_delta_queue_depth ≡ 0 = ground arith in
          rw (room, none_out) refl
    ]

module _ (id partial_json : Text) (now : ℕ) (a : Accumulator) (entry : ToolState) where
  abbrev grown : Assoc ToolState
  grown = insert id (accumulated entry partial_json now) a.state

  -- What an accepted delta does to the accumulator and to the peers: `own` is its entry behind the
  -- call, `taken` the part of the delta that is stored, and `left` the rest.
  pub record Accepts : Type 0 where
    pub accepted : (accumulate id partial_json now a).0 ≡ ok
    pub other_entries :
        (j : Text) → j ≢ id → lookup j (accumulate id partial_json now a).1.state ≡ lookup j a.state
    pub own : ToolState
    pub own_entry : lookup id (accumulate id partial_json now a).1.state ≡ some own
    pub same_id : own.id ≡ entry.id
    pub same_task_id : own.task_id ≡ entry.task_id
    pub same_name : own.name ≡ entry.name
    pub same_finished : own.finished ≡ entry.finished
    pub activity : own.last_activity ≡ now
    pub queued :
        own.delta_queue
        ≡ drop
            (suc (length entry.delta_queue) - max_tool_delta_queue_depth)
            (entry.delta_queue ++ (partial_json ∷ []))
    pub taken : Text
    pub left : Text
    pub splits : partial_json ≡ taken ++ left
    pub stored : own.partial_args ≡ entry.partial_args ++ taken
    pub bounded : byte_len own.partial_args ≤ max_stored_partial_bytes
    pub cut :
        ((left ≡ [])
          × (own.truncated ≡ entry.truncated)
          × ((accumulate id partial_json now a).2 ≡ tool_delta id entry.task_id partial_json ∷ []))
        ⊎ ((ch : ℕ) × (rest : Text) × (left ≡ ch ∷ rest)
            × (max_stored_partial_bytes < byte_len own.partial_args + len_utf8 ch)
            × (own.truncated ≡ true)
            × ((accumulate id partial_json now a).2
                ≡ tool_delta id entry.task_id partial_json
                  ∷ (if entry.truncated
                      then []
                      else partial_args_truncated id entry.task_id max_stored_partial_bytes ∷ [])))

  -- The signal of a truncation is sent just once.
  signal-stored :
      (push_chars entry.partial_args partial_json).1 ≡ false
      → truncation_signal id entry partial_json ≡ []
  unfolding truncation_signal
  signal-stored whole = rw whole refl

  signal-cut :
      (push_chars entry.partial_args partial_json).1 ≡ true
      → truncation_signal id entry partial_json ≡ (
          if entry.truncated
          then []
          else partial_args_truncated id entry.task_id max_stored_partial_bytes ∷ [])
  unfolding truncation_signal
  signal-cut cut = elim (Bool-cases entry.truncated) [
    | inl again ↦ rw (cut, again) refl
    | inr first ↦ rw (cut, first) refl
  ]

  -- A delta for a known id, that goes on a JSON prefix and leaves the memory estimate within the
  -- watermark, where the stored text and the queue of the entry are within their bounds: it changes
  -- its own entry and no other. The entry keeps its id, task, name and whether it is finished, has
  -- the time of the call, and the delta last in its queue, without the first one where the queue was
  -- full. Of the delta the longest front that fits is stored behind the old text. The delta is sent
  -- on whole under the entry's task; if it was cut, the entry is marked, and a signal of that follows
  -- where it was not marked before.
  pub accumulate-Accepts :
      lookup id a.state ≡ some entry
      → is_valid_json_prefix entry.partial_args partial_json ≡ true
      → estimate_memory_usage grown ≤ a.memory_watermark_bytes
      → byte_len entry.partial_args ≤ max_stored_partial_bytes
      → length entry.delta_queue ≤ max_tool_delta_queue_depth
      → Accepts
  unfolding accumulate accumulate_entry
  accumulate-Accepts e v fits small short =
      let within : over a grown ≡ false = ground arith in
      let own : lookup id grown ≡ some (accumulated entry partial_json now) =
        (rw (lookup-insert, text_eq_refl)) in
      let signals : (accumulate id partial_json now a).2
          ≡ tool_delta id entry.task_id partial_json ∷ truncation_signal id entry partial_json =
        rw (e, accumulate_entry, v, within, own) (unfold accumulated in refl) in
      let p = push_chars-Stores entry.partial_args partial_json small in
      record {
        accepted = rw (e, accumulate_entry, v);
        own = accumulated entry partial_json now;
        own_entry = rw (e, accumulate_entry, v, within) own;
        other_entries = λ j ne.
            rw (e, accumulate_entry, v, within)
              (lookup-insert id j _ a.state ∙ ground (arith, text_eq_iff id j));
        same_id = unfold accumulated in refl;
        same_task_id = unfold accumulated in refl;
        same_name = unfold accumulated in refl;
        same_finished = unfold accumulated in refl;
        activity = unfold accumulated in refl;
        queued = unfold accumulated in push_delta_lem entry.delta_queue partial_json short;
        taken = p.taken;
        left = p.left;
        splits = p.splits;
        stored = unfold accumulated in p.result;
        bounded = unfold accumulated in rw p.result p.fits;
        cut = elim (Bool-cases (push_chars entry.partial_args partial_json).1) [
          | inr whole ↦ inl (
            p.all_taken whole,
            unfold accumulated in ground (arith, whole),
            signals ∙ ap (◌∷◌ (tool_delta id entry.task_id partial_json)) (signal-stored whole),
          )
          | inl cut ↦ inr (
            (p.next_too_long cut).0,
            (p.next_too_long cut).1,
            (p.next_too_long cut).2,
            unfold accumulated in rw p.result (p.next_too_long cut).3,
            unfold accumulated in ground (arith, cut),
            signals ∙ ap (◌∷◌ (tool_delta id entry.task_id partial_json)) (signal-cut cut),
          )
        ];
      }

  -- Over the watermark, a delta whose own entry is the oldest pending one is still answered with
  -- success, though its entry is gone and the peers are told of it under an empty task id.
  pub accumulate_drops_itself :
      (at : ℕ)
      → lookup id a.state ≡ some entry
      → is_valid_json_prefix entry.partial_args partial_json ≡ true
      → a.memory_watermark_bytes < estimate_memory_usage grown
      → oldest_pending grown ≡ some (id, at)
      → ((accumulate id partial_json now a).0 ≡ ok)
        × (lookup id (accumulate id partial_json now a).1.state ≡ none)
        × ((accumulate id partial_json now a).2
            ≡ tool_delta id [] partial_json ∷ truncation_signal id entry partial_json)
  unfolding accumulate accumulate_entry drop_oldest_pending
  accumulate_drops_itself at e v over_it oldest =
      let beyond : over a grown ≡ true = ground arith in
      let gone : lookup id (remove id grown) ≡ none = rw (lookup-remove, text_eq_refl) in
      (
        rw (e, accumulate_entry, v),
        rw (e, accumulate_entry, v, beyond, oldest, drop_oldest_pending) gone,
        rw (e, accumulate_entry, v, beyond, drop_oldest_pending, oldest, gone),
      )
