-- ===== src/Team/Spawned.antt =====
-- What making a task leaves (src/app/subtask_orchestrator/mod.rs).
use vexcoder.Prelude.{◌≡◌, refl, true, none, some, List, [], ◌∷◌, ◌++◌, Text}
use vexcoder.Team.Task.{SessionTask, TaskState, ids, stamp_join_supersedes, add_session_task}
use vexcoder.Team.Store.{Answer, ok, err, ◌>>=◌}
use vexcoder.Team.Orchestrator.{
  AgentProfile, Spawn, IsolationPolicy, worktree, shared, find_agent, isolated, leased, spawn_task,
}

-- If there is an answer, it has the property.
abbrev pub Answers : {A : Type 0} → (A → Type 0) → Answer A → Type 0
Answers P (ok a) = P a
Answers P (err e) = Unit

pub Answers-bind :
    {A B : Type 0} (P : B → Type 0) (Q : A → Type 0) (m : Answer A) (f : A → Answer B)
    → Answers Q m
    → ((a : A) → Q a → Answers P (f a))
    → Answers P (m >>= f)
Answers-bind P Q (err e) f h k = tt
Answers-bind P Q (ok a) f h k = k a h

Answers-any : {A : Type 0} (P : A → Type 0) (m : Answer A) → ((a : A) → P a) → Answers P m
Answers-any P (ok a) k = k a
Answers-any P (err e) k = tt

-- What making a task leaves
abbrev pub Spawned : TaskState → Text → Text × TaskState → Type 0
Spawned s m (id, t) =
    (u : SessionTask) × (t.session_tasks ≡ s.session_tasks ++ (u ∷ []))
    × (u.agent_id ≡ m)
    × (u.supersedes ≡ ids s.session_tasks)

leased_lem :
    (host : Spawn) (parent : Text) (policy : IsolationPolicy) (task : SessionTask)
    → Answers
        (λ (u : SessionTask). (u.agent_id ≡ task.agent_id) × (u.supersedes ≡ task.supersedes))
        (isolated host parent policy task)
leased_lem host parent shared task = (refl, refl)
leased_lem host parent worktree task =
    elim (host.lease_for_task task.id parent)
      as (λ o.
        Answers
          (λ (u : SessionTask). (u.agent_id ≡ task.agent_id) × (u.supersedes ≡ task.supersedes))
          (leased o task)) [ none ↦ tt | some path ↦ (refl, refl) ]

pub spawn_task-Spawned :
    (host : Spawn) (agents : List AgentProfile) (parent prompt : Text) (s : TaskState) (m : Text)
    → Answers (Spawned s m) (spawn_task host agents parent prompt true s m)
unfolding spawn_task stamp_join_supersedes add_session_task
spawn_task-Spawned host agents parent prompt s m =
    Answers-bind (Spawned s m) (λ a. Unit) (find_agent agents m) _
      (Answers-any (λ a. Unit) _ (λ a. tt))
      (λ a _.
        Answers-bind (Spawned s m)
          (λ (u : SessionTask). (u.agent_id ≡ m) × (u.supersedes ≡ ids s.session_tasks)) _ _
          (leased_lem host parent a.isolation _) (λ u h. (u, refl, h.0, h.1)))
