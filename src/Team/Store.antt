-- ===== src/Team/Store.antt =====
-- What the orchestrator finds on the disk, and its results: a value or an error
-- (src/app/subtask_orchestrator/mod.rs).
use vexcoder.Prelude.{ℕ, Bool, true, false, ◌==◌, if◌then◌else◌, Text}
use vexcoder.JoinIndex.Index.{JoinIndex, new_index}
use vexcoder.Team.Task.{TaskState, new_state}

pub data TeamError : Type 0 where
  no_members : TeamError
  agent_not_found : Text → TeamError
  no_lease : TeamError
  not_loaded : TeamError
  not_saved : TeamError

pub data Answer (A : Type 0) : Type 0 where
  ok : A → Answer A
  err : TeamError → Answer A

infixl 5 ◌>>=◌
abbrev pub ◌>>=◌ : {A B : Type 0} → Answer A → (A → Answer B) → Answer B
ok a >>= f = f a
err e >>= f = err e

-- A file: it may be missing, or not be readable.
pub data Saved (A : Type 0) : Type 0 where
  missing : Saved A
  unreadable : Saved A
  saved : A → Saved A

-- `TaskState::load`: an old file has no time, and gets that of the call.
unfoldable pub load : ℕ → Saved TaskState → Answer TaskState
load now missing = err not_loaded
load now unreadable = err not_loaded
load now (saved s) = ok (if s.updated_at == 0 then record s { updated_at = now } else s)

-- The state that a schedule starts from, where there may be no file yet
unfoldable pub load_parent : ℕ → Text → Saved TaskState → Answer TaskState
unfolding load
load_parent now id missing = ok (new_state now id)
load_parent now id unreadable = load now unreadable
load_parent now id (saved s) = load now (saved s)

-- `JoinIndex::load_or_new`
unfoldable pub load_or_new : Saved JoinIndex → Answer JoinIndex
load_or_new missing = ok new_index
load_or_new unreadable = err not_loaded
load_or_new (saved index) = ok index

-- Saves the state of a call, if the disk lets it, and answers with the value beside it.
abbrev pub save_with :
    {A : Type 0} → Bool → Saved TaskState → Answer (A × TaskState) → Answer A × Saved TaskState
save_with saves before (err e) = (err e, before)
save_with true before (ok (a, s)) = (ok a, saved s)
save_with false before (ok (a, s)) = (err not_saved, before)
