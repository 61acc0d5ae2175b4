-- ===== src/Team/Order.antt =====
-- The tasks of a sequential team (src/app/subtask_orchestrator/mod.rs).
use vexcoder.Prelude.{
  ◌≡◌, refl, sym, ap, subst, ◌∙◌, ◌⊎◌, inl, inr, ◌≤◌, true, false, none, some, List, [], ◌∷◌, ◌++◌,
  append-nil, append_assoc, arith, is_empty, length-retain, All, All-append, length, Bool-cases,
  if◌then◌else◌, Text, text_eq, text_eq_iff,
}
use vexcoder.Team.Task.{SessionTask, is_live, ids, change_task, session_task}
use vexcoder.Team.Orchestrator.{task_of, next_member}
use vexcoder.Team.Join.{live_tasks}

-- The tasks are those of the first members, in the order of the team; each of them supersedes
-- just the tasks before it, and only the last one may be live.
abbrev pub InOrder : List Text → List Text → List SessionTask → Type 0
InOrder before ms [] = Unit
InOrder before [] (t ∷ ts) = ⊥
InOrder before (m ∷ ms) (t ∷ ts) =
    (t.agent_id ≡ m)
    × (t.supersedes ≡ before)
    × ((is_empty ts ≡ true) ⊎ (is_live t.lifecycle_state ≡ false))
    × InOrder (before ++ (t.id ∷ [])) ms ts

-- No text stands twice.
abbrev pub IsDistinct : List Text → Type 0
IsDistinct [] = Unit
IsDistinct (m ∷ ms) = All (λ x. text_eq m x ≡ false) ms × IsDistinct ms

abbrev pub HasNone : List SessionTask → Text → Type 0
HasNone ts m = All (λ (t : SessionTask). text_eq t.agent_id m ≡ false) ts

pub task_of-skip :
    (m : Text) (front ts : List SessionTask)
    → HasNone front m
    → task_of m (front ++ ts) ≡ task_of m ts
unfolding task_of
task_of-skip m [] ts h = refl
task_of-skip m (t ∷ front) ts h = ground (arith, h.0, task_of-skip m front ts h.1)

pub HasNone-add :
    (front : List SessionTask) (t : SessionTask) (ms : List Text)
    → All (HasNone front) ms
    → All (λ x. text_eq t.agent_id x ≡ false) ms
    → All (HasNone (front ++ (t ∷ []))) ms
HasNone-add front t [] h k = tt
HasNone-add front t (m ∷ ms) h k = (
  All-append (λ (u : SessionTask). text_eq u.agent_id m ≡ false) front (t ∷ []) h.0 (k.0, tt),
  HasNone-add front t ms h.1 k.1,
)

pub task_of-head :
    (m : Text) (t : SessionTask) (ts : List SessionTask)
    → t.agent_id ≡ m
    → task_of m (t ∷ ts) ≡ some t
unfolding task_of
task_of-head m t ts h =
    let e : text_eq t.agent_id m ≡ true = (text_eq_iff t.agent_id m).1 h in rw e refl

module _ (tasks : List SessionTask) (m : Text) (ms : List Text) where
  pub next_member_free : task_of m tasks ≡ none → next_member tasks (m ∷ ms) ≡ some m
  unfolding next_member
  next_member_free h = rw (h, next_member) refl

  next_member_past :
      {t : SessionTask} {n : Text}
      → task_of m tasks ≡ some t
      → next_member tasks (m ∷ ms) ≡ some n
      → (is_live t.lifecycle_state ≡ false) × (next_member tasks ms ≡ some n)
  unfolding next_member
  next_member_past {t} {n} h k =
      let e : (if is_live t.lifecycle_state then none else next_member tasks ms) ≡ some n =
        sym (rw (h, next_member) refl) ∙ k in
      elim (Bool-cases (is_live t.lifecycle_state)) [
        | inl live ↦ absurd (ground (arith, live, e))
        | inr ended ↦ (ended, ground (arith, ended, e))
      ]

-- The task of the next member keeps the order.
extended :
    (front ts : List SessionTask) (before ms : List Text) (m : Text) (u : SessionTask)
    → IsDistinct ms
    → All (HasNone front) ms
    → InOrder before ms ts
    → next_member (front ++ ts) ms ≡ some m
    → u.agent_id ≡ m
    → u.supersedes ≡ before ++ ids ts
    → InOrder before ms (ts ++ (u ∷ []))
unfolding next_member
extended front [] before [] m u d f o n a s = cc
extended front [] before (x ∷ ms) m u d f o n a s =
    let free : task_of x (front ++ []) ≡ none =
      task_of-skip x front [] f.0 ∙ (unfold task_of in refl) in
    let e : some x ≡ some m = sym (next_member_free (front ++ []) x ms free) ∙ n in
    (cc, s ∙ append-nil before, inl refl, tt)
extended front (t ∷ ts) before [] m u d f o n a s = absurd o
extended front (t ∷ ts) before (x ∷ ms) m u d f o n a s =
    let at : task_of x (front ++ (t ∷ ts)) ≡ some t =
      task_of-skip x front (t ∷ ts) f.0 ∙ task_of-head x t ts o.0 in
    let (ended, later) = next_member_past (front ++ (t ∷ ts)) x ms at n in
    let later' : next_member ((front ++ (t ∷ [])) ++ ts) ms ≡ some m =
      subst (λ l. next_member l ms ≡ some m) (sym (append_assoc front (t ∷ []) ts)) later in
    let other : All (λ y. text_eq t.agent_id y ≡ false) ms =
      subst (λ z. All (λ y. text_eq z y ≡ false) ms) (sym o.0) d.0 in
    (
      o.0,
      o.1,
      inr ended,
      extended (front ++ (t ∷ [])) ts (before ++ (t.id ∷ [])) ms m u d.1
          (HasNone-add front t ms f.1 other) o.3 later' a
          (s ∙ sym (append_assoc before (t.id ∷ []) (ids ts))),
    )

pub nobody : (ms : List Text) → All (HasNone []) ms
nobody [] = tt
nobody (m ∷ ms) = (tt, nobody ms)

pub next_member-InOrder :
    (ms : List Text) (ts : List SessionTask) (m : Text) (u : SessionTask)
    → IsDistinct ms
    → InOrder [] ms ts
    → next_member ts ms ≡ some m
    → u.agent_id ≡ m
    → u.supersedes ≡ ids ts
    → InOrder [] ms (ts ++ (u ∷ []))
next_member-InOrder ms ts m u d o n a s = extended [] ts [] ms m u d (nobody ms) o n a s

-- A change of the first task with an identifier keeps the order if it keeps what the order is
-- about, unless the task was live.
module _ (f : SessionTask → SessionTask) (id : Text) where
  abbrev pub KeepsOrder : Type 0
  KeepsOrder =
      (t : SessionTask)
      → ((f t).id ≡ t.id) × ((f t).agent_id ≡ t.agent_id) × ((f t).supersedes ≡ t.supersedes)

  is_empty-change_task : (ts : List SessionTask) → is_empty (change_task f id ts) ≡ is_empty ts
  unfolding change_task
  is_empty-change_task [] = refl
  is_empty-change_task (t ∷ ts) = ground arith

  pub change_task-InOrder :
      (before ms : List Text) (ts : List SessionTask)
      → KeepsOrder
      → ((t : SessionTask)
          → session_task ts id ≡ some t
          → (is_live t.lifecycle_state ≡ true) ⊎ ((f t).lifecycle_state ≡ t.lifecycle_state))
      → InOrder before ms ts
      → InOrder before ms (change_task f id ts)
  unfolding change_task session_task
  change_task-InOrder before ms [] k l o = tt
  change_task-InOrder before [] (t ∷ ts) k l o = absurd o
  change_task-InOrder before (m ∷ ms) (t ∷ ts) k l o = elim (Bool-cases (text_eq t.id id)) [
    | inl same ↦ rw same (
      (k t).1 ∙ o.0,
      (k t).2 ∙ o.1,
      elim o.2 [
        | inl last ↦ inl last
        | inr ended ↦ elim (l t (rw same refl)) [
          | inl live ↦ absurd (ground (arith, live, ended))
          | inr stays ↦ inr (ap is_live stays ∙ ended)
        ]
      ],
      subst (λ i. InOrder (before ++ (i ∷ [])) ms ts) (sym (k t).0) o.3,
    )
    | inr other ↦ rw other (
      o.0,
      o.1,
      subst (λ b. (b ≡ true) ⊎ (is_live t.lifecycle_state ≡ false)) (sym (is_empty-change_task ts))
          o.2,
      change_task-InOrder (before ++ (t.id ∷ [])) ms ts k (λ u h. l u (rw other h)) o.3,
    )
  ]

-- At most one task is live.
pub InOrder-live :
    (before ms : List Text) (ts : List SessionTask)
    → InOrder before ms ts
    → length (live_tasks ts) ≤ 1
InOrder-live before ms [] o = omega arith
InOrder-live before [] (t ∷ ts) o = absurd o
InOrder-live before (m ∷ ms) (t ∷ []) o =
    length-retain (λ (u : SessionTask). is_live u.lifecycle_state) (t ∷ [])
InOrder-live before (m ∷ ms) (t ∷ u ∷ ts) o = elim o.2 [
  | inl last ↦ cc
  | inr ended ↦ rw ended (InOrder-live (before ++ (t.id ∷ [])) ms (u ∷ ts) o.3)
]
