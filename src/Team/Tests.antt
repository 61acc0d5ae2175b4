-- ===== src/Team/Tests.antt =====
-- A sequential team of two agents: the first one hands over, and then the second one.
use vexcoder.Prelude.{
  arith, All, sym, inl, inr, ◌≡◌, refl, ℕ, ◌≤◌, length, true, none, some, List, [], ◌∷◌, ◌++◌, Text,
  codes, text_eq, is_empty, ◌||◌, if◌then◌else◌, ◌+◌,
}
use vexcoder.Team.Task.{
  failed, new_state, session_task, update_session_task_status, completed, pending, SessionTask,
  TaskState, is_live, ids,
}
use vexcoder.Team.Store.{Saved, missing, saved, ok}
use vexcoder.Team.Orchestrator.{
  find_agent, Spawn, AgentProfile, IsolationPolicy, shared, worktree, TeamDefinition, sequential,
  schedule_team, advance_sequential,
}
use vexcoder.Team.Join.{
  is_completed, production_supersedes, poll_fan_out_join, JoinOutcome, JoinSummary, handoff_line,
  apply_join_outcome, live_tasks,
}
use vexcoder.Team.Order.{InOrder, IsDistinct}
use vexcoder.Team.Advance.{HasProfile, OneMore, advance_sequential-OneMore}
use vexcoder.Team.Reached.{Reached, updated, scheduled, advanced, Reached-InOrder}
use vexcoder.Team.Scheduled.{InFile}
use vexcoder.Team.Poll.{
  count, any_live, is_failed, is_cancelled, handoffs, poll_fan_out_join-Counts,
}
use vexcoder.Team.Posting.{entry_of}
use vexcoder.Team.Handoff.{all_save, apply_join_outcome-Last}

abbrev team : TeamDefinition
team = record { name = codes "pair"; members = codes "a" ∷ codes "b" ∷ []; scheduler = sequential }

abbrev agent : Text → IsolationPolicy → AgentProfile
agent name isolation = record {
  name = name;
  profile = codes "default";
  isolation = isolation;
  max_parallel_tasks = 1;
  allowed_capabilities = [];
}

abbrev agents : List AgentProfile
agents = agent (codes "b") worktree ∷ agent (codes "a") shared ∷ []

abbrev host : ℕ → Spawn
host k = record {
  uuid = (48 + k) ∷ [];
  created_at = 10;
  added_at = 11;
  lease_for_task = λ task parent. some (codes "worktrees/" ++ task);
}

abbrev state_of : Saved TaskState → TaskState
state_of (saved s) = s
state_of _ = new_state 0 []

-- The state behind the schedule, and the file behind the end of the first task and a call to go on
abbrev first : TaskState
first = state_of (schedule_team host 9 true missing (codes "p") team agents (codes "go")).1

abbrev ended : TaskState
ended = (update_session_task_status 13 first (codes "p-a-0") failed).1

abbrev two_tasks : Saved TaskState
two_tasks =
    (advance_sequential (host 1) 14 true (saved ended) (codes "p") team agents (codes "go")).1

team-IsDistinct : IsDistinct team.members
team-IsDistinct = ((unfold text_eq in refl, tt), (tt, tt))

first-Reached : Reached team agents (codes "p") (codes "go") (saved first)
unfolding schedule_team text_eq
first-Reached = scheduled host 9 true missing tt

abbrev first_task : SessionTask
first_task = record {
  id = codes "p-a-0";
  parent_task_id = codes "p";
  agent_id = codes "a";
  prompt = codes "go";
  lifecycle_state = pending;
  worktree_path = none;
  started_at = none;
  updated_at = 10;
  last_heartbeat = none;
  handoff_summary = none;
  supersedes = [];
}

abbrev first_ended : TaskState
first_ended = record (new_state 10 (codes "p")) {
  session_tasks = (record first_task { lifecycle_state = failed }) ∷ [];
}

ended-Reached : Reached team agents (codes "p") (codes "go") (saved ended)
ended-Reached =
    updated 13 (codes "p-a-0") failed first first_task first-Reached
      (unfold session_task schedule_team text_eq in refl) (unfold is_live in refl)

-- Both tasks are there.
two_tasks-ids : ids (state_of two_tasks).session_tasks ≡ codes "p-a-0" ∷ codes "p-b-1" ∷ []
unfolding advance_sequential update_session_task_status schedule_team session_task text_eq is_live
two_tasks-ids = refl

Reached-InOrder_example :
    InFile
      (λ s. InOrder [] team.members s.session_tasks × (length (live_tasks s.session_tasks) ≤ 1))
      two_tasks
Reached-InOrder_example =
    Reached-InOrder team agents (codes "p") (codes "go") two_tasks refl team-IsDistinct
      (advanced (host 1) 14 true (saved ended) ended-Reached)

abbrev task : Text → Text → Text → List Text → SessionTask
task id by text sup = record {
  id = id;
  parent_task_id = codes "p";
  agent_id = by;
  prompt = codes "go";
  lifecycle_state = completed;
  worktree_path = none;
  started_at = some 12;
  updated_at = 20;
  last_heartbeat = none;
  handoff_summary = some text;
  supersedes = sup;
}

abbrev done : TaskState
done = record {
  id = codes "p";
  updated_at = 20;
  handoff_summary = none;
  session_tasks =
      task (codes "1") (codes "a") (codes "draft") []
      ∷ task (codes "2") (codes "b") (codes "final") (codes "1" ∷ [])
      ∷ [];
}

poll_fan_out_join-Counts_example :
    (poll_fan_out_join 30 (saved done)
      ≡ ok (
          if is_empty done.session_tasks || any_live done.session_tasks
          then none
          else some (record {
            all_done = true;
            completed = count is_completed done.session_tasks;
            failed = count is_failed done.session_tasks;
            cancelled = count is_cancelled done.session_tasks;
            summaries = handoffs done.session_tasks done.session_tasks;
          })))
    × (count is_live done.session_tasks
          + (count is_completed done.session_tasks
              + (count is_failed done.session_tasks + count is_cancelled done.session_tasks))
        ≡ length done.session_tasks)
poll_fan_out_join-Counts_example = poll_fan_out_join-Counts 30 done

abbrev final : JoinSummary
final = record {
  message_id = codes "2";
  agent_id = codes "b";
  summary = codes "final";
  supersedes = codes "1" ∷ [];
}

abbrev draft : JoinSummary
draft = record {
  message_id = codes "1";
  agent_id = codes "a";
  summary = codes "draft";
  supersedes = [];
}

abbrev outcome : JoinOutcome
outcome = record {
  all_done = true;
  completed = 2;
  failed = 0;
  cancelled = 0;
  summaries = draft ∷ final ∷ [];
}

done-handoffs : handoffs done.session_tasks done.session_tasks ≡ (draft ∷ []) ++ (final ∷ [])
unfolding production_supersedes text_eq
done-handoffs = refl

apply_join_outcome-Last_example :
    let joined =
      apply_join_outcome 30 31 all_save (record { index = missing; parent = saved done }) outcome in
    (joined.0 ≡ ok (entry_of final ∷ []))
    × InFile (λ t. t.handoff_summary ≡ some (handoff_line (entry_of final))) joined.1.parent
apply_join_outcome-Last_example =
    apply_join_outcome-Last 30 31 done team.members outcome (draft ∷ []) final
      (refl, refl, inr (unfold is_live in refl), (refl, refl, inl refl, tt))
      ((unfold text_eq in refl, tt), (tt, tt)) (sym done-handoffs) done-handoffs

agents-HasProfile : All (HasProfile agents) team.members
unfolding find_agent text_eq
agents-HasProfile = ((agent (codes "a") shared, refl), ((agent (codes "b") worktree, refl), tt))

-- The first task has failed, and the member behind it is left.
advance_sequential-OneMore_example :
    (id : Text) × (t : TaskState) × (advance_sequential
        (host 1)
        14
        true
        (saved first_ended)
        (codes "p")
        team
        agents
        (codes "go")
      ≡ (ok (some id), saved t))
    × OneMore first_ended (id, t)
advance_sequential-OneMore_example =
    advance_sequential-OneMore (host 1) 14 first_ended (codes "p") team agents (codes "go")
      (λ task parent. (codes "worktrees/" ++ task, refl)) agents-HasProfile team-IsDistinct
      (refl, refl, inl refl, tt) (unfold is_live in refl, tt) (omega arith)
