-- ===== src/Team/Task.antt =====
-- `SessionTask` (src/runtime/session_task.rs), and the part of `TaskState` that holds the tasks
-- (src/runtime/task_state/mod.rs). Clock readings come in as arguments, and paths are texts.
use vexcoder.Prelude.{
  ℕ, Bool, true, false, Option, none, some, List, [], ◌∷◌, ◌++◌, map, retain, if◌then◌else◌, Text,
  codes, text_eq,
}
use vexcoder.Prelude.Assoc.{is_some}

pub data SessionTaskStatus : Type 0 where
  pending : SessionTaskStatus
  running : SessionTaskStatus
  blocked : SessionTaskStatus
  failed : SessionTaskStatus
  cancelled : SessionTaskStatus
  completed : SessionTaskStatus

unfoldable pub is_live : SessionTaskStatus → Bool
is_live pending = true
is_live running = true
is_live blocked = true
is_live failed = false
is_live cancelled = false
is_live completed = false

pub record SessionTask : Type 0 where
  pub id : Text
  pub parent_task_id : Text
  pub agent_id : Text
  pub prompt : Text
  pub lifecycle_state : SessionTaskStatus
  pub worktree_path : Option Text
  pub started_at : Option ℕ
  pub updated_at : ℕ
  pub last_heartbeat : Option ℕ
  pub handoff_summary : Option Text
  pub supersedes : List Text

-- `SessionTask::new`, with the identifier that the library draws
abbrev pub new_task : Text → ℕ → Text → Text → Text → Option Text → SessionTask
new_task uuid now parent agent prompt worktree = record {
  id = parent ++ (codes "-" ++ (agent ++ (codes "-" ++ uuid)));
  parent_task_id = parent;
  agent_id = agent;
  prompt = prompt;
  lifecycle_state = pending;
  worktree_path = worktree;
  started_at = none;
  updated_at = now;
  last_heartbeat = none;
  handoff_summary = none;
  supersedes = [];
}

abbrev pub ids : List SessionTask → List Text
ids = map (λ (t : SessionTask). t.id)

unfoldable pub stamp_join_supersedes : SessionTask → List SessionTask → Bool → SessionTask
stamp_join_supersedes task existing sequential_continuation = record task {
  supersedes =
      if sequential_continuation
      then ids existing
      else ids (retain (λ (t : SessionTask). text_eq t.agent_id task.agent_id) existing);
}

abbrev is_running : SessionTaskStatus → Bool
is_running running = true
is_running _ = false

unfoldable pub transition_to : ℕ → SessionTask → SessionTaskStatus → SessionTask
transition_to now task status = record task {
  started_at =
      if is_some task.started_at
      then task.started_at
      else if is_running status
      then some now
      else task.started_at;
  lifecycle_state = status;
  updated_at = now;
}

unfoldable pub record_heartbeat : ℕ → SessionTask → SessionTask
record_heartbeat now task = record task { last_heartbeat = some now; updated_at = now }

unfoldable pub set_handoff_summary : ℕ → SessionTask → Text → SessionTask
set_handoff_summary now task summary = record task {
  handoff_summary = some summary;
  updated_at = now;
}

-- The fields that the orchestrator reads and writes
pub record TaskState : Type 0 where
  pub id : Text
  pub updated_at : ℕ
  pub handoff_summary : Option Text
  pub session_tasks : List SessionTask

abbrev pub new_state : ℕ → Text → TaskState
new_state now id = record { id = id; updated_at = now; handoff_summary = none; session_tasks = [] }

unfoldable pub add_session_task : ℕ → TaskState → SessionTask → TaskState
add_session_task now s task = record s {
  session_tasks = s.session_tasks ++ (task ∷ []);
  updated_at = now;
}

-- `session_task_mut`, with the change of the task that it finds
unfoldable pub change_task :
    (SessionTask → SessionTask) → Text → List SessionTask → List SessionTask
change_task f id [] = []
change_task f id (t ∷ ts) = if text_eq t.id id then f t ∷ ts else t ∷ change_task f id ts

unfoldable pub session_task : List SessionTask → Text → Option SessionTask
session_task [] id = none
session_task (t ∷ ts) id = if text_eq t.id id then some t else session_task ts id

-- Whether there is such a task, and the state behind the call
unfoldable pub update_session_task_status :
    ℕ → TaskState → Text → SessionTaskStatus → Bool × TaskState
unfolding change_task transition_to
update_session_task_status now s id status =
    if is_some (session_task s.session_tasks id)
    then (
      true,
      record s {
        session_tasks = change_task (λ t. transition_to now t status) id s.session_tasks;
        updated_at = now;
      },
    )
    else (false, s)
