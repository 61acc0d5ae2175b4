-- ===== src/Team/Poll.antt =====
-- What a poll of a team's tasks tells (src/app/subtask_orchestrator/mod.rs).
use vexcoder.Prelude.{
  ◌≡◌, refl, sym, ap, ◌∙◌, inl, inr, ℕ, suc, ◌+◌, Bool, true, false, ◌||◌, Option, none, some, List,
  [], ◌∷◌, ◌++◌, append-nil, append_assoc, arith, any, is_empty, length, retain, Bool-cases,
  if◌then◌else◌, ◌==◌,
}
use vexcoder.Team.Task.{
  SessionTaskStatus, pending, running, blocked, failed, cancelled, completed, SessionTask,
  TaskState, is_live,
}
use vexcoder.Team.Store.{ok, saved, load}
use vexcoder.Team.Join.{
  JoinSummary, JoinOutcome, is_completed, summarised, tally, poll_tasks, no_tally,
  poll_fan_out_join,
}

abbrev pub is_failed : SessionTaskStatus → Bool
is_failed failed = true
is_failed _ = false

abbrev pub is_cancelled : SessionTaskStatus → Bool
is_cancelled cancelled = true
is_cancelled _ = false

-- How many tasks are in a state of the given kind.
abbrev pub count : (SessionTaskStatus → Bool) → List SessionTask → ℕ
count p ts = length (retain (λ (t : SessionTask). p t.lifecycle_state) ts)

abbrev pub any_live : List SessionTask → Bool
any_live = any (λ (t : SessionTask). is_live t.lifecycle_state)

-- The handoffs of the completed tasks, in the order of the tasks.
abbrev pub handoffs : List SessionTask → List SessionTask → List JoinSummary
handoffs all [] = []
handoffs all (t ∷ ts) =
    (if is_completed t.lifecycle_state then summarised t all t.handoff_summary else [])
    ++ handoffs all ts

-- What the counters and the summaries come to behind a list of tasks, unless one of them is live.
abbrev told : Bool → Bool → ℕ → ℕ → ℕ → List JoinSummary → Option JoinOutcome
told live done c f x s =
    if live
    then none
    else some (record { all_done = done; completed = c; failed = f; cancelled = x; summaries = s })

abbrev added : List SessionTask → JoinOutcome → List SessionTask → Option JoinOutcome
added all o ts =
    told (any_live ts) o.all_done (o.completed + count is_completed ts)
      (o.failed + count is_failed ts) (o.cancelled + count is_cancelled ts)
      (o.summaries ++ handoffs all ts)

told_eq :
    (live done : Bool) {c c' f f' x x' : ℕ} {s s' : List JoinSummary}
    → c ≡ c'
    → f ≡ f'
    → x ≡ x'
    → s ≡ s'
    → told live done c f x s ≡ told live done c' f' x' s'
told_eq live done p q r t = rw (p, q, r, t) refl

poll_tasks-step :
    (all ts : List SessionTask) (o : JoinOutcome) (t : SessionTask) (s : SessionTaskStatus)
    → t.lifecycle_state ≡ s
    → ((o : JoinOutcome) → poll_tasks all o ts ≡ added all o ts)
    → poll_tasks all o (t ∷ ts) ≡ added all o (t ∷ ts)
unfolding poll_tasks tally is_live
poll_tasks-step all ts o t completed e h = rw e (
    h _
    ∙ told_eq (any_live ts) o.all_done (omega arith) refl refl
        (append_assoc o.summaries (summarised t all t.handoff_summary) (handoffs all ts)))
poll_tasks-step all ts o t failed e h =
    rw e (h _ ∙ told_eq (any_live ts) o.all_done refl (omega arith) refl refl)
poll_tasks-step all ts o t cancelled e h =
    rw e (h _ ∙ told_eq (any_live ts) o.all_done refl refl (omega arith) refl)
poll_tasks-step all ts o t pending e h = rw e refl
poll_tasks-step all ts o t running e h = rw e refl
poll_tasks-step all ts o t blocked e h = rw e refl

pub poll_tasks_lem :
    (all ts : List SessionTask) (o : JoinOutcome) → poll_tasks all o ts ≡ added all o ts
unfolding poll_tasks
poll_tasks_lem all [] o =
    told_eq false o.all_done (omega arith) (omega arith) (omega arith)
      (sym (append-nil o.summaries))
poll_tasks_lem all (t ∷ ts) o =
    poll_tasks-step all ts o t t.lifecycle_state refl (poll_tasks_lem all ts)

counted : (ts : List SessionTask) → ℕ
counted ts =
    count is_live ts + (count is_completed ts + (count is_failed ts + count is_cancelled ts))

counted-step :
    (t : SessionTask) (ts : List SessionTask) (s : SessionTaskStatus)
    → t.lifecycle_state ≡ s
    → counted (t ∷ ts) ≡ suc (counted ts)
unfolding counted is_live
counted-step t ts completed e = rw e (omega arith)
counted-step t ts failed e = rw e (omega arith)
counted-step t ts cancelled e = rw e (omega arith)
counted-step t ts pending e = rw e (omega arith)
counted-step t ts running e = rw e (omega arith)
counted-step t ts blocked e = rw e (omega arith)

counted-all : (ts : List SessionTask) → counted ts ≡ length ts
unfolding counted
counted-all [] = refl
counted-all (t ∷ ts) = counted-step t ts t.lifecycle_state refl ∙ ap suc (counted-all ts)

polled :
    (ts : List SessionTask)
    → (if is_empty ts then none else poll_tasks ts no_tally ts)
      ≡ told
          (is_empty ts || any_live ts)
          true
          (count is_completed ts)
          (count is_failed ts)
          (count is_cancelled ts)
          (handoffs ts ts)
polled [] = refl
polled (t ∷ ts) =
    poll_tasks_lem (t ∷ ts) (t ∷ ts) no_tally
    ∙ told_eq (any_live (t ∷ ts)) true (omega arith) (omega arith) (omega arith) refl

-- A poll of a state tells nothing while there is no task or one of them is live. Otherwise it
-- tells how many tasks are completed, failed and cancelled, and the summaries that the completed
-- ones hand over, in the order of the tasks. The three numbers and that of the live tasks are all
-- of the tasks.
pub poll_fan_out_join-Counts :
    (now : ℕ) (s : TaskState)
    → (poll_fan_out_join now (saved s)
        ≡ ok (
            if is_empty s.session_tasks || any_live s.session_tasks
            then none
            else some (record {
              all_done = true;
              completed = count is_completed s.session_tasks;
              failed = count is_failed s.session_tasks;
              cancelled = count is_cancelled s.session_tasks;
              summaries = handoffs s.session_tasks s.session_tasks;
            })))
      × (count is_live s.session_tasks
            + (count is_completed s.session_tasks
                + (count is_failed s.session_tasks + count is_cancelled s.session_tasks))
          ≡ length s.session_tasks)
unfolding poll_fan_out_join load
poll_fan_out_join-Counts now s = (
  elim (Bool-cases (s.updated_at == 0)) [
    | inl old ↦ rw old (ap ok (polled s.session_tasks))
    | inr kept ↦ rw kept (ap ok (polled s.session_tasks))
  ],
  unfold counted in counted-all s.session_tasks,
)
