-- ===== src/Accumulator/Memory.antt =====
-- Which entry is given up for memory, and what starting a tool call and the clean-ups leave
-- (src/runtime/delta_accumulator.rs).
use vexcoder.Prelude.{
  ℕ, ◌+◌, ◌≤◌, ◌≡◌, refl, ◌∙◌, true, false, ◌&&◌, ◌⊎◌, inl, inr, Option, none, some, [], ◌∷◌, arith,
  leb, leb→le, leb→lt, if◌then◌else◌, if_both, if_cases, Bool-cases, Option-cases, Text,
  text_eq_iff, text_eq_refl,
}
use vexcoder.Prelude.Assoc.{
  Assoc, IsUnique, AllValues, lookup, contains_key, insert, lookup-insert, lookup-remove,
  lookup-retain_entries, kept,
}
use vexcoder.Accumulator.Invariant.{IsValid}
use vexcoder.Accumulator.Ops.{
  ok, err, keep_first, oldest_pending, drop_oldest_pending, over, fresh, start_tool, stays,
  cleanup_finished, cleanup_task, of_other_task,
}
use vexcoder.Accumulator.State.{
  tool_start, ToolState, AccumulationError, duplicate_id, memory_pressure, Accumulator,
  estimate_memory_usage, entry_bytes,
}

abbrev NotOlder : ℕ → Text → ToolState → Type 0
NotOlder at id s = s.finished ≡ false → at ≤ s.last_activity

-- `id` is pending since `at`, and no pending entry is older.
pub record IsOldest (m : Assoc ToolState) (id : Text) (at : ℕ) : Type 0 where
  pub entry : ToolState
  pub stands : lookup id m ≡ some entry
  pub pending : entry.finished ≡ false
  pub since : entry.last_activity ≡ at
  pub least : AllValues (NotOlder at) m

abbrev Finished : Text → ToolState → Type 0
Finished id s = s.finished ≡ true

AllValues-weaken :
    (m : Assoc ToolState) (at at' : ℕ)
    → at' ≤ at
    → AllValues (NotOlder at) m
    → AllValues (NotOlder at') m
AllValues-weaken [] at at' h a = tt
AllValues-weaken ((k, s) ∷ m) at at' h a =
    (λ p. omega (arith, a.0 p), AllValues-weaken m at at' h a.1)

Finished-NotOlder :
    (m : Assoc ToolState) (at : ℕ) → AllValues Finished m → AllValues (NotOlder at) m
Finished-NotOlder [] at h = tt
Finished-NotOlder ((k, s) ∷ m) at h = (λ p. cc (h.0), Finished-NotOlder m at h.1)

-- The outcome of the search
abbrev OldestOf : Assoc ToolState → Option (Text × ℕ) → Type 0
OldestOf m none = AllValues Finished m
OldestOf m (some (id, at)) = IsOldest m id at

IsOldest-cons :
    (m : Assoc ToolState) (k id : Text) (s : ToolState) (at : ℕ)
    → lookup k m ≡ none
    → NotOlder at k s
    → IsOldest m id at
    → IsOldest ((k, s) ∷ m) id at
unfolding lookup
IsOldest-cons m k id s at new_key h o = record {
  entry = o.entry;
  stands = ground (arith, text_eq_iff k id, new_key, o.stands);
  pending = o.pending;
  since = o.since;
  least = (h, o.least);
}

IsOldest-here :
    (m : Assoc ToolState) (k : Text) (s : ToolState)
    → s.finished ≡ false
    → AllValues (NotOlder s.last_activity) m
    → IsOldest ((k, s) ∷ m) k s.last_activity
unfolding lookup
IsOldest-here m k s p h = record {
  entry = s;
  stands = rw text_eq_refl;
  pending = p;
  since = refl;
  least = (λ _. omega arith, h);
}

keep_first-OldestOf :
    (m : Assoc ToolState) (k : Text) (s : ToolState) (o : Option (Text × ℕ))
    → lookup k m ≡ none
    → s.finished ≡ false
    → OldestOf m o
    → OldestOf ((k, s) ∷ m) (keep_first k s o)
keep_first-OldestOf m k s none new_key p h = IsOldest-here m k s p (Finished-NotOlder m _ h)
keep_first-OldestOf m k s (some (id, at)) new_key p h = elim (Bool-cases (leb s.last_activity at)) [
  | inl older ↦
      rw older
        (IsOldest-here m k s p (AllValues-weaken m at s.last_activity (leb→le _ _ older) h.least))
  | inr newer ↦
      rw newer (IsOldest-cons m k id s at new_key (λ _. omega (arith, leb→lt _ _ newer)) h)
]

-- The search for the oldest pending entry gives none only if every entry is finished, and else a
-- pending entry that no pending entry is older than.
pub oldest_pending-OldestOf : (m : Assoc ToolState) → IsUnique m → OldestOf m (oldest_pending m)
unfolding oldest_pending
oldest_pending-OldestOf [] u = tt
oldest_pending-OldestOf ((k, s) ∷ m) u =
    if_cases (OldestOf ((k, s) ∷ m)) s.finished _ _
      (λ f. skip f (oldest_pending m) (oldest_pending-OldestOf m u.1))
      (λ p. keep_first-OldestOf m k s (oldest_pending m) u.0 p (oldest_pending-OldestOf m u.1))
  where
    no_both : s.finished ≡ true → s.finished ≡ false → ⊥
    no_both f p = cc

    skip : s.finished ≡ true → (o : Option (Text × ℕ)) → OldestOf m o → OldestOf ((k, s) ∷ m) o
    skip f none h = (f, h)
    skip f (some (id, at)) h = IsOldest-cons m k id s at u.0 (λ p. absurd (no_both f p)) h

lookup-drop_oldest_pending :
    (id : Text) (m : Assoc ToolState)
    → lookup id m ≡ none
    → lookup id (drop_oldest_pending m) ≡ none
unfolding drop_oldest_pending
lookup-drop_oldest_pending id m h = elim (Option-cases (oldest_pending m)) [
  | inl e ↦ rw (e, drop_oldest_pending) h
  | inr ((k, at), e) ↦
      rw (e, drop_oldest_pending) (lookup-remove k id m ∙ if_both (λ o. o ≡ none) _ _ _ refl h)
]

estimate-insert :
    (id : Text) (s : ToolState) (m : Assoc ToolState)
    → lookup id m ≡ none
    → estimate_memory_usage (insert id s m) ≡ estimate_memory_usage m + entry_bytes id s
unfolding estimate_memory_usage insert lookup
estimate-insert id s [] h = omega arith
estimate-insert id s ((k, t) ∷ m) h = ground (arith, estimate-insert id s m)

-- What a tool call that is started leaves.
pub record Starts (id task_id name : Text) (now : ℕ) (a : Accumulator) : Type 0 where
  pub was_new : lookup id a.state ≡ none
  pub own_entry :
      lookup id (start_tool id task_id name now a).1.state ≡ some (fresh id task_id name now)
  pub memory :
      estimate_memory_usage (start_tool id task_id name now a).1.state
      ≤ a.memory_watermark_bytes + entry_bytes id (fresh id task_id name now)
  pub signal : (start_tool id task_id name now a).2 ≡ tool_start id task_id name ∷ []

-- A tool call is started only under a new id. It then stands with no arguments, the memory estimate
-- is over the watermark by no more than the new entry, and the peers are told of it.
pub start_tool-Starts :
    (id task_id name : Text) (now : ℕ) (a : Accumulator)
    → (start_tool id task_id name now a).0 ≡ ok
    → Starts id task_id name now a
unfolding start_tool
start_tool-Starts id task_id name now a h =
    let room = if over a a.state then drop_oldest_pending a.state else a.state in
    let unknown : contains_key id a.state ≡ false = ground arith in
    let new_key : lookup id a.state ≡ none = unfold contains_key in ground arith in
    let no_pressure : (over a a.state && over a room) ≡ false = ground arith in
    let new_in_room : lookup id room ≡ none =
      (if_both (λ (m : Assoc ToolState). lookup id m ≡ none) (over a a.state) _ _
        (lookup-drop_oldest_pending id a.state new_key) new_key) in
    let fits : estimate_memory_usage room ≤ a.memory_watermark_bytes = ground arith in
    record {
      was_new = new_key;
      own_entry = rw (unknown, no_pressure) (rw (lookup-insert, text_eq_refl));
      memory =
          rw (unknown, no_pressure)
            (omega (arith, estimate-insert id (fresh id task_id name now) room new_in_room));
      signal = rw (unknown, no_pressure);
    }

-- A refused start sends nothing. A known id changes nothing; memory pressure gives up at most the
-- oldest pending entry.
pub start_tool_refused :
    (id task_id name : Text) (now : ℕ) (a : Accumulator) (e : AccumulationError)
    → (start_tool id task_id name now a).0 ≡ err e
    → ((start_tool id task_id name now a).2 ≡ [])
      × (((e ≡ duplicate_id id) × ((start_tool id task_id name now a).1 ≡ a))
          ⊎ ((e ≡ memory_pressure)
              × ((start_tool id task_id name now a).1.state ≡ drop_oldest_pending a.state)))
unfolding start_tool
start_tool_refused id task_id name now a e h = elim (Bool-cases (contains_key id a.state)) [
  | inl known ↦ (ground arith, inl (ground arith, ground arith))
  | inr new_key ↦ (ground arith, inr (ground arith, ground arith))
]

-- Cleaning up a task takes out the entries of that task and leaves every other entry as it is.
pub lookup-cleanup_task :
    (task_id j : Text) (a : Accumulator)
    → IsValid a
    → lookup j (cleanup_task task_id a).0.state ≡ kept (of_other_task task_id) j (lookup j a.state)
unfolding cleanup_task
lookup-cleanup_task task_id j a v = lookup-retain_entries (of_other_task task_id) j a.state v.unique

-- Cleaning up keeps an entry just when it is not finished or was active after the cutoff.
pub lookup-cleanup_finished :
    (cutoff : ℕ) (j : Text) (a : Accumulator)
    → IsValid a
    → lookup j (cleanup_finished cutoff a).0.state ≡ kept (stays cutoff) j (lookup j a.state)
unfolding cleanup_finished
lookup-cleanup_finished cutoff j a v = lookup-retain_entries (stays cutoff) j a.state v.unique
