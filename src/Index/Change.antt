-- ===== src/Index/Change.antt =====
-- A change of one file of the workspace (src/tools/index.rs).
use vexcoder.Prelude.{◌≡◌, Bool, false, not, some, List, [], ◌∷◌, retain, if◌then◌else◌, text_eq}
use vexcoder.Index.Build.{Paths, Files, workspace_relative}

-- One file has changed, and the walk finds it or not: the other files are found in the same order
-- as before, and are as before.
pub record IsChange (paths : Paths) (before after : Files paths) (changed : Paths.PathBuf paths)
    : Type 0 where
  pub walked : List (Paths.PathBuf paths)
  pub walked_after : List (Paths.PathBuf paths)
  pub was : before.walk ≡ some walked
  pub now : after.walk ≡ some walked_after
  pub others :
      retain
        (λ q. not (text_eq (workspace_relative paths q) (workspace_relative paths changed)))
        walked
      ≡ retain
          (λ q. not (text_eq (workspace_relative paths q) (workspace_relative paths changed)))
          walked_after
  pub same_len :
      (q : Paths.PathBuf paths)
      → text_eq (workspace_relative paths q) (workspace_relative paths changed) ≡ false
      → before.metadata_len q ≡ after.metadata_len q
  pub same_text :
      (q : Paths.PathBuf paths)
      → text_eq (workspace_relative paths q) (workspace_relative paths changed) ≡ false
      → before.read_to_string q ≡ after.read_to_string q
  pub found : Bool
  pub itself :
      retain
        (λ q. text_eq (workspace_relative paths q) (workspace_relative paths changed))
        walked_after
      ≡ (if found then changed ∷ [] else [])
