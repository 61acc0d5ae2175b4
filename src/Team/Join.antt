-- ===== src/Team/Join.antt =====
-- `SubtaskOrchestrator`: the poll of a team's tasks and the join of what they hand over
-- (src/app/subtask_orchestrator/mod.rs). What a call finds on the disk and which of its files it
-- can save come in as arguments.
use vexcoder.Prelude.{
  ℕ, suc, Bool, true, false, not, ◌&&◌, Option, none, some, List, [], ◌∷◌, ◌++◌, any, is_empty,
  length, map, retain, if◌then◌else◌, Text, codes, text_eq,
}
use vexcoder.Prelude.Assoc.{is_some}
use vexcoder.Lines.{join_lines}
use vexcoder.JoinIndex.Index.{LiveJoinEntry, JoinIndex, has_text, post, live_entries}
use vexcoder.Team.Task.{
  SessionTaskStatus, pending, running, blocked, completed, failed, cancelled, SessionTask,
  TaskState, is_live,
}
use vexcoder.Team.Store.{not_saved, Answer, ok, err, Saved, saved, load, load_or_new}
use vexcoder.Team.Orchestrator.{TeamDefinition}

pub record JoinSummary : Type 0 where
  pub message_id : Text
  pub agent_id : Text
  pub summary : Text
  pub supersedes : List Text

pub record JoinOutcome : Type 0 where
  pub all_done : Bool
  pub completed : ℕ
  pub failed : ℕ
  pub cancelled : ℕ
  pub summaries : List JoinSummary

abbrev pub is_completed : SessionTaskStatus → Bool
is_completed completed = true
is_completed _ = false

-- `&all[..index]` at the position of the task with this identifier, if there is one
unfoldable pub tasks_before : Text → List SessionTask → Option (List SessionTask)
tasks_before id [] = none
tasks_before id (t ∷ ts) =
    if text_eq t.id id
    then some []
    else elim (tasks_before id ts) [ none ↦ none | some before ↦ some (t ∷ before) ]

-- The loop over the prior tasks
unfoldable pub add_priors : Text → List Text → List SessionTask → List Text
add_priors agent ids [] = ids
add_priors agent ids (prior ∷ priors) =
    add_priors agent
      (if is_completed prior.lifecycle_state
          && (is_some prior.handoff_summary
              && (text_eq prior.agent_id agent && not (has_text prior.id ids)))
        then ids ++ (prior.id ∷ [])
        else ids)
      priors

unfoldable pub production_supersedes : SessionTask → List SessionTask → List Text
unfolding tasks_before add_priors
production_supersedes task all = elim (tasks_before task.id all) [
  | none ↦ task.supersedes
  | some before ↦ add_priors task.agent_id task.supersedes before
]

abbrev pub summarised : SessionTask → List SessionTask → Option Text → List JoinSummary
summarised task all none = []
summarised task all (some summary) =
    record {
      message_id = task.id;
      agent_id = task.agent_id;
      summary = summary;
      supersedes = production_supersedes task all;
    }
    ∷ []

-- One task in the loop of the poll; a task that is not at its end stops the poll.
unfoldable pub tally :
    List SessionTask → JoinOutcome → SessionTask → SessionTaskStatus → Option JoinOutcome
unfolding production_supersedes
tally all o t completed = some (record o {
  completed = suc o.completed;
  summaries = o.summaries ++ summarised t all t.handoff_summary;
})
tally all o t failed = some (record o { failed = suc o.failed })
tally all o t cancelled = some (record o { cancelled = suc o.cancelled })
tally all o t pending = none
tally all o t running = none
tally all o t blocked = none

unfoldable pub poll_tasks : List SessionTask → JoinOutcome → List SessionTask → Option JoinOutcome
unfolding tally
poll_tasks all o [] = some o
poll_tasks all o (t ∷ ts) = elim (tally all o t t.lifecycle_state) [
  | none ↦ none
  | some next ↦ poll_tasks all next ts
]

abbrev pub no_tally : JoinOutcome
no_tally = record { all_done = true; completed = 0; failed = 0; cancelled = 0; summaries = [] }

unfoldable pub poll_fan_out_join : ℕ → Saved TaskState → Answer (Option JoinOutcome)
unfolding load poll_tasks
poll_fan_out_join now file = elim (load now file) [
  | err e ↦ err e
  | ok s ↦ ok (
      if is_empty s.session_tasks
      then none
      else poll_tasks s.session_tasks no_tally s.session_tasks)
]

abbrev pub handoff_line : LiveJoinEntry → Text
handoff_line e =
    if is_empty e.agent_id then e.body else codes "[" ++ (e.agent_id ++ (codes "]: " ++ e.body))

unfoldable pub format_live_handoff : List LiveJoinEntry → Text
unfolding join_lines
format_live_handoff entries = join_lines (map handoff_line entries)

-- The two files of a parent task
pub record TaskFiles : Type 0 where
  pub index : Saved JoinIndex
  pub parent : Saved TaskState

-- Which of the three saves of the call succeed
pub record Saves : Type 0 where
  pub index_saves : Bool
  pub parent_saves : Bool
  pub evidence_saves : Bool

unfoldable pub post_all : JoinIndex → List JoinSummary → JoinIndex
unfolding post
post_all index [] = index
post_all index (x ∷ xs) = post_all (post index x.message_id x.agent_id x.summary x.supersedes) xs

-- The part of the call behind the save of the index
unfoldable pub hand_over :
    ℕ → ℕ → Saves → TaskFiles → List LiveJoinEntry → Answer (List LiveJoinEntry) × TaskFiles
unfolding load format_live_handoff
hand_over loaded_at now saves files live = elim (load loaded_at files.parent) [
  | err e ↦ (err e, files)
  | ok s ↦
      let state = record s {
        handoff_summary = some (format_live_handoff live);
        updated_at = now;
      } in
      if saves.parent_saves
      then (
        if saves.evidence_saves then ok live else err not_saved,
        record files { parent = saved state },
      )
      else (err not_saved, files)
]

unfoldable pub apply_join_outcome :
    ℕ → ℕ → Saves → TaskFiles → JoinOutcome → Answer (List LiveJoinEntry) × TaskFiles
unfolding load_or_new post_all live_entries hand_over
apply_join_outcome loaded_at now saves files outcome =
    if is_empty outcome.summaries then (ok [], files) else elim (load_or_new files.index) [
      | err e ↦ (err e, files)
      | ok index ↦
          let merge = post_all index outcome.summaries in
          if saves.index_saves
          then hand_over loaded_at now saves (record files { index = saved merge })
              (live_entries merge)
          else (err not_saved, files)
    ]

abbrev pub live_tasks : List SessionTask → List SessionTask
live_tasks = retain (λ (t : SessionTask). is_live t.lifecycle_state)

unfoldable pub live_session_task_count : ℕ → Saved TaskState → Answer ℕ
unfolding load is_live
live_session_task_count now file = elim (load now file) [
  | err e ↦ err e
  | ok s ↦ ok (length (live_tasks s.session_tasks))
]

abbrev pub has_ended : List SessionTask → Text → Bool
has_ended tasks member =
    any (λ (t : SessionTask). text_eq t.agent_id member && not (is_live t.lifecycle_state)) tasks

unfoldable pub is_team_schedule_exhausted : ℕ → Saved TaskState → TeamDefinition → Answer Bool
unfolding load is_live
is_team_schedule_exhausted now file team = elim (load now file) [
  | err e ↦ err e
  | ok s ↦ ok (not (any (λ m. not (has_ended s.session_tasks m)) team.members))
]
