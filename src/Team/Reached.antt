-- ===== src/Team/Reached.antt =====
-- The runs of a sequential team (src/app/subtask_orchestrator/mod.rs).
use vexcoder.Prelude.{
  ◌≡◌, refl, sym, subst, ◌∙◌, inl, inr, ℕ, ◌≤◌, ◌==◌, Bool, true, Option, some, List, [], length,
  Bool-cases, Option-cases, Text,
}
use vexcoder.Team.Task.{
  SessionTaskStatus, SessionTask, TaskState, is_live, change_task, session_task, transition_to,
  set_handoff_summary, update_session_task_status,
}
use vexcoder.Team.Store.{Saved, missing, unreadable, saved, load}
use vexcoder.Team.Orchestrator.{
  advance_loaded, sequential, AgentProfile, TeamDefinition, Spawn, spawn_task, schedule_team,
  next_member, advance_sequential,
}
use vexcoder.Team.Join.{live_tasks}
use vexcoder.Team.Order.{
  InOrder, IsDistinct, next_member-InOrder, change_task-InOrder, InOrder-live,
}
use vexcoder.Team.Spawned.{Answers-bind, Spawned, spawn_task-Spawned}
use vexcoder.Team.Scheduled.{InFile, save_with-InFile, HasNoTasks, first-InOrder}

-- The files that a sequential team's calls leave: the team is scheduled for a parent without
-- session tasks, calls go on to the next member, and the hosts of live tasks change their states,
-- while any task may hand over a summary. Left out is a schedule for a parent that has session
-- tasks: it makes a task of the first member again.
pub data Reached (team : TeamDefinition) (agents : List AgentProfile) (parent prompt : Text)
    : Saved TaskState → Type 0 where
  scheduled :
      (host : ℕ → Spawn) (now : ℕ) (saves : Bool) (file : Saved TaskState)
      → HasNoTasks file
      → Reached team agents parent prompt
          (schedule_team host now saves file parent team agents prompt).1
  advanced :
      (host : Spawn) (now : ℕ) (saves : Bool) (file : Saved TaskState)
      → Reached team agents parent prompt file
      → Reached team agents parent prompt
          (advance_sequential host now saves file parent team agents prompt).1
  updated :
      (now : ℕ) (id : Text) (status : SessionTaskStatus) (s : TaskState) (t : SessionTask)
      → Reached team agents parent prompt (saved s)
      → session_task s.session_tasks id ≡ some t
      → is_live t.lifecycle_state ≡ true
      → Reached team agents parent prompt (saved (update_session_task_status now s id status).1)
  handed_over :
      (now : ℕ) (id summary : Text) (s : TaskState)
      → Reached team agents parent prompt (saved s)
      → Reached team agents parent prompt (
          saved (record s {
            session_tasks = change_task (λ t. set_handoff_summary now t summary) id s.session_tasks;
          }))

same-some : {A : Type 0} {a b : A} → some a ≡ some b → a ≡ b
same-some h = cc

module _ (team : TeamDefinition) (agents : List AgentProfile) (parent prompt : Text) where
  abbrev Ordered : TaskState → Type 0
  Ordered s = InOrder [] team.members s.session_tasks

  loaded-Ordered :
      (host : Spawn) (saves : Bool) (file : Saved TaskState) (s : TaskState)
      → IsDistinct team.members
      → InFile Ordered file
      → Ordered s
      → InFile Ordered (advance_loaded host saves file parent team agents prompt s).1
  unfolding advance_loaded
  loaded-Ordered host saves file s d h o =
      elim (Option-cases (next_member s.session_tasks team.members)) [
        | inl none_left ↦ rw (none_left, advance_loaded) h
        | inr (m, e) ↦
            rw (e, advance_loaded)
              (save_with-InFile Ordered saves file _ h (
                Answers-bind (λ (r : Option Text × TaskState). Ordered r.1) (Spawned s m)
                  (spawn_task host agents parent prompt true s m) _
                  (spawn_task-Spawned host agents parent prompt s m)
                  (λ r k.
                    subst (InOrder [] team.members) (sym k.1)
                      (next_member-InOrder team.members s.session_tasks m k.0 d o e k.2 k.3))))
      ]

  advance-Ordered :
      (host : Spawn) (now : ℕ) (saves : Bool) (file : Saved TaskState)
      → IsDistinct team.members
      → InFile Ordered file
      → InFile Ordered (advance_sequential host now saves file parent team agents prompt).1
  unfolding advance_sequential load
  advance-Ordered host now saves missing d h = tt
  advance-Ordered host now saves unreadable d h = tt
  advance-Ordered host now saves (saved s) d h = elim (Bool-cases (s.updated_at == 0)) [
    | inl old ↦ rw old (loaded-Ordered host saves (saved s) (record s { updated_at = now }) d h h)
    | inr kept ↦ rw kept (loaded-Ordered host saves (saved s) s d h h)
  ]

  schedule-Ordered :
      (host : ℕ → Spawn) (now : ℕ) (saves : Bool) (file : Saved TaskState)
      → team.scheduler ≡ sequential
      → HasNoTasks file
      → InFile Ordered (schedule_team host now saves file parent team agents prompt).1
  unfolding schedule_team
  schedule-Ordered host now saves file q n =
      rw q (first-InOrder agents parent prompt host now saves file team.members n)

  update-Ordered :
      (now : ℕ) (id : Text) (status : SessionTaskStatus) (s : TaskState) (t : SessionTask)
      → Ordered s
      → session_task s.session_tasks id ≡ some t
      → is_live t.lifecycle_state ≡ true
      → Ordered (update_session_task_status now s id status).1
  unfolding update_session_task_status transition_to
  update-Ordered now id status s t o h live = rw h (
      change_task-InOrder (λ t. transition_to now t status) id [] team.members s.session_tasks
        (λ t. (refl, refl, refl))
        (λ u k. inl (
          subst (λ (v : SessionTask). is_live v.lifecycle_state ≡ true) (same-some (sym h ∙ k))
            live))
        o)

  hand-Ordered :
      (now : ℕ) (id summary : Text) (s : TaskState)
      → Ordered s
      → InOrder [] team.members
          (change_task (λ t. set_handoff_summary now t summary) id s.session_tasks)
  unfolding set_handoff_summary
  hand-Ordered now id summary s o =
      change_task-InOrder (λ t. set_handoff_summary now t summary) id [] team.members
        s.session_tasks (λ t. (refl, refl, refl)) (λ u k. inr refl) o

  Reached-Ordered :
      {file : Saved TaskState}
      → team.scheduler ≡ sequential
      → IsDistinct team.members
      → Reached team agents parent prompt file
      → InFile Ordered file
  Reached-Ordered q d (scheduled host now saves file n) = schedule-Ordered host now saves file q n
  Reached-Ordered q d (advanced host now saves file r) =
      advance-Ordered host now saves file d (Reached-Ordered q d r)
  Reached-Ordered q d (updated now id status s t r h live) =
      update-Ordered now id status s t (Reached-Ordered q d r) h live
  Reached-Ordered q d (handed_over now id summary s r) =
      hand-Ordered now id summary s (Reached-Ordered q d r)

  InFile-map :
      (P Q : TaskState → Type 0) (file : Saved TaskState)
      → ((s : TaskState) → P s → Q s)
      → InFile P file
      → InFile Q file
  InFile-map P Q missing f h = h
  InFile-map P Q unreadable f h = h
  InFile-map P Q (saved s) f h = f s h

-- Of a sequential team with distinct members that was scheduled while its parent had no session
-- task, and not again while it had one: in every file that the schedule, the calls to go on to the
-- next member, the changes of the state of a live task and the summaries leave, the tasks are those
-- of the first members in the order of the team, each of them supersedes just the tasks before it,
-- every task but the last one has ended, and at most one task is live.
pub Reached-InOrder :
    (team : TeamDefinition) (agents : List AgentProfile) (parent prompt : Text)
    (file : Saved TaskState)
    → team.scheduler ≡ sequential
    → IsDistinct team.members
    → Reached team agents parent prompt file
    → InFile
        (λ s. InOrder [] team.members s.session_tasks × (length (live_tasks s.session_tasks) ≤ 1))
        file
Reached-InOrder team agents parent prompt file q d r =
    InFile-map team agents parent prompt (λ s. InOrder [] team.members s.session_tasks) _ file
      (λ s o. (o, InOrder-live [] team.members s.session_tasks o))
      (Reached-Ordered team agents parent prompt q d r)
