-- ===== src/Team/Advance.antt =====
-- A sequential team goes on when its last task has ended (src/app/subtask_orchestrator/mod.rs).
use vexcoder.Prelude.{
  ◌≡◌, refl, sym, ap, subst, ◌∙◌, inl, inr, ℕ, ◌<◌, true, false, Bool-cases, none, some, List, [],
  ◌∷◌, ◌++◌, append_assoc, arith, All, length, ◌==◌, Text, text_eq,
}
use vexcoder.Team.Task.{
  SessionTask, TaskState, is_live, new_task, stamp_join_supersedes, add_session_task,
}
use vexcoder.Team.Store.{ok, err, ◌>>=◌, saved, load, save_with}
use vexcoder.Team.Orchestrator.{
  AgentProfile, Spawn, IsolationPolicy, worktree, shared, TeamDefinition, find_agent, isolated,
  leased, spawn_task, task_of, next_member, made, advance_loaded, advance_sequential,
}
use vexcoder.Team.Order.{
  InOrder, IsDistinct, HasNone, HasNone-add, task_of-skip, task_of-head, nobody, next_member_free,
}

abbrev pub HaveEnded : List SessionTask → Type 0
HaveEnded = All (λ (t : SessionTask). is_live t.lifecycle_state ≡ false)

next_member_on :
    (tasks : List SessionTask) (m : Text) (ms : List Text) (t : SessionTask)
    → task_of m tasks ≡ some t
    → is_live t.lifecycle_state ≡ false
    → next_member tasks (m ∷ ms) ≡ next_member tasks ms
unfolding next_member
next_member_on tasks m ms t h ended = rw (h, next_member) (rw ended refl)

-- Where the tasks have ended and are fewer than the members, there is a next member.
next_member-there :
    (P : Text → Type 0) (front ts : List SessionTask) (before ms : List Text)
    → All P ms
    → IsDistinct ms
    → All (HasNone front) ms
    → InOrder before ms ts
    → HaveEnded ts
    → length ts < length ms
    → (m : Text) × P m × (next_member (front ++ ts) ms ≡ some m)
next_member-there P front ts before [] p d f o e h = absurd (omega (arith, h))
next_member-there P front [] before (x ∷ ms) p d f o e h =
    let free : task_of x (front ++ []) ≡ none =
      task_of-skip x front [] f.0 ∙ (unfold task_of in refl) in
    (x, p.0, next_member_free (front ++ []) x ms free)
next_member-there P front (t ∷ ts) before (x ∷ ms) p d f o e h =
    let at : task_of x (front ++ (t ∷ ts)) ≡ some t =
      task_of-skip x front (t ∷ ts) f.0 ∙ task_of-head x t ts o.0 in
    let other : All (λ y. text_eq t.agent_id y ≡ false) ms =
      subst (λ z. All (λ y. text_eq z y ≡ false) ms) (sym o.0) d.0 in
    let (m, q, n) =
      next_member-there P (front ++ (t ∷ [])) ts (before ++ (t.id ∷ [])) ms p.1 d.1
        (HasNone-add front t ms f.1 other) o.3 e.1 (omega (arith, h)) in
    (
      m,
      q,
      next_member_on (front ++ (t ∷ ts)) x ms t at e.0
          ∙ (ap (λ l. next_member l ms) (sym (append_assoc front (t ∷ []) ts)) ∙ n),
    )

-- The host can give every task a lease.
abbrev pub CanLease : Spawn → Type 0
CanLease host = (task parent : Text) → (path : Text) × (host.lease_for_task task parent ≡ some path)

-- The member has a profile.
abbrev pub HasProfile : List AgentProfile → Text → Type 0
HasProfile agents m = (a : AgentProfile) × (find_agent agents m ≡ ok a)

isolated-there :
    (host : Spawn) (parent : Text) (policy : IsolationPolicy) (task : SessionTask)
    → CanLease host
    → (u : SessionTask) × (isolated host parent policy task ≡ ok u)
      × (u.lifecycle_state ≡ task.lifecycle_state)
isolated-there host parent shared task can = (task, refl, refl)
isolated-there host parent worktree task can =
    let (path, e) = can task.id parent in
    (record task { worktree_path = some path }, ap (λ o. leased o task) e, refl)

-- A task more, which is live
abbrev pub OneMore : TaskState → Text × TaskState → Type 0
OneMore s (id, t) =
    (u : SessionTask) × (u.id ≡ id)
    × (t.session_tasks ≡ s.session_tasks ++ (u ∷ []))
    × (is_live u.lifecycle_state ≡ true)

module _ (host : Spawn) (agents : List AgentProfile) (can : CanLease host)
    (parent prompt : Text) where
  spawn_task-there :
      (s : TaskState) (m : Text) (a : AgentProfile)
      → find_agent agents m ≡ ok a
      → (r : Text × TaskState) × (spawn_task host agents parent prompt true s m ≡ ok r)
        × OneMore s r
  unfolding spawn_task stamp_join_supersedes add_session_task is_live
  spawn_task-there s m a e =
      let task =
        stamp_join_supersedes (new_task host.uuid host.created_at parent m prompt none)
          s.session_tasks true in
      let (u, made_of, live) = isolated-there host parent a.isolation task can in
      (
        (u.id, add_session_task host.added_at s u),
        ap
              (λ found. found >>= (λ agent.
                isolated host parent agent.isolation task
                >>= (λ t. ok (t.id, add_session_task host.added_at s t))))
              e
            ∙ ap (λ t. t >>= (λ t. ok (t.id, add_session_task host.added_at s t))) made_of,
        (u, refl, refl, ap is_live live),
      )

load-there :
    (now : ℕ) (s : TaskState)
    → (t : TaskState) × (load now (saved s) ≡ ok t) × (t.session_tasks ≡ s.session_tasks)
unfolding load
load-there now s = elim (Bool-cases (s.updated_at == 0)) [
  | inl old ↦ (record s { updated_at = now }, rw old refl, refl)
  | inr timed ↦ (s, rw timed refl, refl)
]

-- A sequential team goes on: where the tasks of the saved state are those of the first members in
-- the order of the team, all have ended, members are left, every member has a profile, the host can
-- give leases and the disk saves, the call answers with the identifier of a task that it has added
-- behind the others, and this task is live.
pub advance_sequential-OneMore :
    (host : Spawn) (now : ℕ) (s : TaskState) (parent : Text) (team : TeamDefinition)
    (agents : List AgentProfile) (prompt : Text)
    → CanLease host
    → All (HasProfile agents) team.members
    → IsDistinct team.members
    → InOrder [] team.members s.session_tasks
    → HaveEnded s.session_tasks
    → length s.session_tasks < length team.members
    → (id : Text) × (t : TaskState) × (advance_sequential host now true
          (saved s)
          parent
          team
          agents
          prompt
        ≡ (ok (some id), saved t))
      × OneMore s (id, t)
unfolding advance_sequential advance_loaded
advance_sequential-OneMore host now s parent team agents prompt can profiles d o ended left =
    let (s2, loaded, same) = load-there now s in
    let (m, (a, found), next) =
      next_member-there (HasProfile agents) [] s.session_tasks [] team.members profiles d
        (nobody team.members) o ended left in
    let ((id, t), spawned, (u, e, tasks, live)) =
      spawn_task-there host agents can parent prompt s2 m a found in
    (
      id,
      t,
      ap
            (λ l. elim l [
              | err e ↦ (err e, saved s)
              | ok s2 ↦ advance_loaded host true (saved s) parent team agents prompt s2
            ])
            loaded
          ∙ (ap
                (λ n. elim n [
                  | none ↦ (ok none, saved s)
                  | some member ↦
                      save_with true (saved s)
                        (spawn_task host agents parent prompt true s2 member >>= (λ r. ok (made r)))
                ])
                (ap (λ l. next_member l team.members) same ∙ next)
              ∙ ap (λ r. save_with true (saved s) (r >>= (λ x. ok (made x)))) spawned),
      (u, e, tasks ∙ ap (λ l. l ++ (u ∷ [])) same, live),
    )
