-- ===== src/Team/Scheduled.antt =====
-- The first schedule of a sequential team (src/app/subtask_orchestrator/mod.rs).
use vexcoder.Prelude.{
  ◌≡◌, refl, sym, ap, subst, ◌∙◌, inl, inr, ℕ, ◌==◌, Bool, true, false, List, [], ◌∷◌, ◌++◌,
  is_empty, take, Bool-cases, if◌then◌else◌, Text,
}
use vexcoder.Team.Task.{TaskState, ids, new_state}
use vexcoder.Team.Store.{
  Saved, no_members, missing, unreadable, saved, Answer, ok, err, ◌>>=◌, load, load_parent,
  save_with,
}
use vexcoder.Team.Orchestrator.{sequential, AgentProfile, Spawn, spawn_task, spawn_all, decomposed}
use vexcoder.Team.Order.{InOrder}
use vexcoder.Team.Spawned.{Answers, Answers-bind, Spawned, spawn_task-Spawned}

-- What holds of the state in a file, if there is one.
abbrev pub InFile : (TaskState → Type 0) → Saved TaskState → Type 0
InFile P missing = Unit
InFile P unreadable = Unit
InFile P (saved s) = P s

pub save_with-InFile :
    {A : Type 0} (P : TaskState → Type 0) (saves : Bool) (file : Saved TaskState)
    (m : Answer (A × TaskState))
    → InFile P file
    → Answers (λ (r : A × TaskState). P r.1) m
    → InFile P (save_with saves file m).1
save_with-InFile P saves file (err e) h k = h
save_with-InFile P true file (ok (a, s)) h k = k
save_with-InFile P false file (ok (a, s)) h k = h

-- A file in which no session task stands: there is none, it is not readable, or the state in it has
-- no task of a team yet.
abbrev pub HasNoTasks : Saved TaskState → Type 0
HasNoTasks missing = Unit
HasNoTasks unreadable = Unit
HasNoTasks (saved s) = s.session_tasks ≡ []

module _ (agents : List AgentProfile) (parent prompt : Text) where
  made-InOrder :
      (host : ℕ → Spawn) (saves : Bool) (file : Saved TaskState) (s : TaskState) (m : Text)
      (members : List Text)
      → s.session_tasks ≡ []
      → InFile (λ s. InOrder [] (m ∷ members) s.session_tasks) file
      → InFile
          (λ s. InOrder [] (m ∷ members) s.session_tasks)
          (save_with saves file (do
            made ← spawn_all host agents parent prompt true 0 s (m ∷ [])
            ok (decomposed parent sequential made))).1
  unfolding spawn_all
  made-InOrder host saves file s m members none_yet o =
      save_with-InFile (λ s. InOrder [] (m ∷ members) s.session_tasks) saves file _ o
        (Answers-bind _ (λ (r : List Text × TaskState). InOrder [] (m ∷ members) r.1.session_tasks)
          (spawn_all host agents parent prompt true 0 s (m ∷ [])) _
          (Answers-bind _ (Spawned s m) (spawn_task (host 0) agents parent prompt true s m) _
            (spawn_task-Spawned (host 0) agents parent prompt s m)
            (λ r k.
              subst (InOrder [] (m ∷ members)) (sym (k.1 ∙ ap (λ l. l ++ (k.0 ∷ [])) none_yet))
                (k.2, k.3 ∙ ap ids none_yet, inl refl, tt)))
          (λ r k. k))

  no_tasks-InOrder :
      (members : List Text) (s : TaskState)
      → s.session_tasks ≡ []
      → InOrder [] members s.session_tasks
  no_tasks-InOrder members s none_yet = subst (InOrder [] members) (sym none_yet) tt

  pub first-InOrder :
      (host : ℕ → Spawn) (now : ℕ) (saves : Bool) (file : Saved TaskState) (members : List Text)
      → HasNoTasks file
      → InFile
          (λ s. InOrder [] members s.session_tasks)
          (if is_empty members
            then (err no_members, file)
            else save_with saves file (do
              s ← load_parent now parent file
              made ← spawn_all host agents parent prompt true 0 s (take 1 members)
              ok (decomposed parent sequential made))).1
  unfolding load_parent load
  first-InOrder host now saves missing [] n = tt
  first-InOrder host now saves unreadable [] n = tt
  first-InOrder host now saves (saved s) [] n = no_tasks-InOrder [] s n
  first-InOrder host now saves missing (m ∷ members) n =
      made-InOrder host saves missing (new_state now parent) m members refl tt
  first-InOrder host now saves unreadable (m ∷ members) n = tt
  first-InOrder host now saves (saved s) (m ∷ members) n =
      let before = no_tasks-InOrder (m ∷ members) s n in
      elim (Bool-cases (s.updated_at == 0)) [
        | inl old ↦
            rw old
              (made-InOrder host saves (saved s) (record s { updated_at = now }) m members n before)
        | inr kept ↦ rw kept (made-InOrder host saves (saved s) s m members n before)
      ]
