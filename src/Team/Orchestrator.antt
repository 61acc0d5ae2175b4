-- ===== src/Team/Orchestrator.antt =====
-- `SubtaskOrchestrator` (src/app/subtask_orchestrator/mod.rs). What a call finds on the disk and
-- whether it can save come in as arguments; identifiers, clock readings and leases as a `Spawn`.
use vexcoder.Prelude.{
  ℕ, suc, Bool, true, false, Option, none, some, List, [], ◌∷◌, is_empty, take, if◌then◌else◌, Text,
  text_eq,
}
use vexcoder.Team.Task.{
  SessionTask, TaskState, is_live, new_task, stamp_join_supersedes, add_session_task,
}
use vexcoder.Team.Store.{
  no_members, agent_not_found, no_lease, Answer, ok, err, ◌>>=◌, Saved, load, load_parent,
  save_with,
}

pub data TeamScheduler : Type 0 where
  fan_out_join : TeamScheduler
  sequential : TeamScheduler

pub data IsolationPolicy : Type 0 where
  worktree : IsolationPolicy
  shared : IsolationPolicy

pub record AgentProfile : Type 0 where
  pub name : Text
  pub profile : Text
  pub isolation : IsolationPolicy
  pub max_parallel_tasks : ℕ
  pub allowed_capabilities : List Text

pub record TeamDefinition : Type 0 where
  pub name : Text
  pub members : List Text
  pub scheduler : TeamScheduler

-- What the host answers while a task is made: its identifier, the two clock readings, and the
-- path of a lease for a task and its parent, if there can be one.
pub record Spawn : Type 0 where
  pub uuid : Text
  pub created_at : ℕ
  pub added_at : ℕ
  pub lease_for_task : Text → Text → Option Text

pub record TeamDecomposition : Type 0 where
  pub parent_task_id : Text
  pub session_task_ids : List Text
  pub scheduler : TeamScheduler

unfoldable pub find_agent : List AgentProfile → Text → Answer AgentProfile
find_agent [] name = err (agent_not_found name)
find_agent (a ∷ agents) name = if text_eq a.name name then ok a else find_agent agents name

abbrev pub leased : Option Text → SessionTask → Answer SessionTask
leased none task = err no_lease
leased (some path) task = ok (record task { worktree_path = some path })

abbrev pub isolated : Spawn → Text → IsolationPolicy → SessionTask → Answer SessionTask
isolated host parent shared task = ok task
isolated host parent worktree task = leased (host.lease_for_task task.id parent) task

-- The body that `schedule_team` and `advance_sequential` have in common
unfoldable pub spawn_task :
    Spawn → List AgentProfile → Text → Text → Bool → TaskState → Text → Answer (Text × TaskState)
unfolding find_agent stamp_join_supersedes add_session_task
spawn_task host agents parent prompt sequential_continuation s member = do
  agent ← find_agent agents member
  task ← isolated host parent agent.isolation (
      stamp_join_supersedes (new_task host.uuid host.created_at parent member prompt none)
        s.session_tasks sequential_continuation)
  ok (task.id, add_session_task host.added_at s task)

-- The loop over the members; `k` counts the tasks made before.
unfoldable pub spawn_all :
    (ℕ → Spawn)
    → List AgentProfile
    → Text
    → Text
    → Bool
    → ℕ
    → TaskState
    → List Text
    → Answer (List Text × TaskState)
unfolding spawn_task
spawn_all host agents parent prompt seq k s [] = ok ([], s)
spawn_all host agents parent prompt seq k s (m ∷ ms) = do
  (id, t) ← spawn_task (host k) agents parent prompt seq s m
  (ids, u) ← spawn_all host agents parent prompt seq (suc k) t ms
  ok (id ∷ ids, u)

abbrev pub is_sequential : TeamScheduler → Bool
is_sequential fan_out_join = false
is_sequential sequential = true

abbrev pub members_to_create : TeamDefinition → List Text
members_to_create team = if is_sequential team.scheduler then take 1 team.members else team.members

abbrev pub decomposed : Text → TeamScheduler → List Text × TaskState → TeamDecomposition × TaskState
decomposed parent scheduler (ids, s) =
    (record { parent_task_id = parent; session_task_ids = ids; scheduler = scheduler }, s)

unfoldable pub schedule_team :
    (ℕ → Spawn)
    → ℕ
    → Bool
    → Saved TaskState
    → Text
    → TeamDefinition
    → List AgentProfile
    → Text
    → Answer TeamDecomposition × Saved TaskState
unfolding load_parent spawn_all
schedule_team host now saves file parent team agents prompt =
    if is_empty team.members
    then (err no_members, file)
    else save_with saves file (do
      s ← load_parent now parent file
      made ←
          spawn_all host agents parent prompt (is_sequential team.scheduler) 0 s
            (members_to_create team)
      ok (decomposed parent team.scheduler made))

-- `iter().find` by the agent
unfoldable pub task_of : Text → List SessionTask → Option SessionTask
task_of member [] = none
task_of member (t ∷ ts) = if text_eq t.agent_id member then some t else task_of member ts

-- The loop over the members: the first one that has no task, unless a task before it is live.
unfoldable pub next_member : List SessionTask → List Text → Option Text
unfolding task_of
next_member tasks [] = none
next_member tasks (m ∷ ms) = elim (task_of m tasks) [
  | none ↦ some m
  | some t ↦ if is_live t.lifecycle_state then none else next_member tasks ms
]

abbrev pub made : Text × TaskState → Option Text × TaskState
made (id, s) = (some id, s)

-- The part of `advance_sequential` behind the loading of the state
unfoldable pub advance_loaded :
    Spawn
    → Bool
    → Saved TaskState
    → Text
    → TeamDefinition
    → List AgentProfile
    → Text
    → TaskState
    → Answer (Option Text) × Saved TaskState
unfolding next_member spawn_task
advance_loaded host saves file parent team agents prompt s =
    elim (next_member s.session_tasks team.members) [
      | none ↦ (ok none, file)
      | some member ↦
          save_with saves file
            (do spawned ← spawn_task host agents parent prompt true s member; ok (made spawned))
    ]

unfoldable pub advance_sequential :
    Spawn
    → ℕ
    → Bool
    → Saved TaskState
    → Text
    → TeamDefinition
    → List AgentProfile
    → Text
    → Answer (Option Text) × Saved TaskState
unfolding load advance_loaded
advance_sequential host now saves file parent team agents prompt = elim (load now file) [
  | err e ↦ (err e, file)
  | ok s ↦ advance_loaded host saves file parent team agents prompt s
]
