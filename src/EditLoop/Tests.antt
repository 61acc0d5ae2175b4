-- ===== src/EditLoop/Tests.antt =====
-- A loop whose first validation fails and whose second one passes.
use vexcoder.Prelude.{zero, suc, ◌≡◌, refl, true, false, Option, none, some, [], ◌∷◌, codes}
use vexcoder.EditLoop.Validation.{pos, ValidationResult}
use vexcoder.EditLoop.Run.{
  turned, World, new_loop, run, run_from, run_pulse, after_turn, validated, done, success, Control,
  checked, EditLoopOutcome,
}
use vexcoder.EditLoop.Outcome.{Explained, run-Explained}

abbrev broken : ValidationResult
broken = record {
  passed = false;
  outputs =
      record {
        label = codes "test";
        exit_code = pos 101;
        stdout_tail = [];
        stderr_tail = codes "boom";
        stdout_tail_limited = false;
        stderr_tail_limited = false;
      }
      ∷ [];
}

abbrev clean : ValidationResult
clean = record { passed = true; outputs = [] }

abbrev world : World
world zero message = record {
  cancelled_before = false;
  turn = turned true;
  cancelled_after = false;
  validation = some broken;
}
world (suc n) message = record {
  cancelled_before = false;
  turn = turned true;
  cancelled_after = false;
  validation = some clean;
}

abbrev outcome_of : Control → Option EditLoopOutcome
outcome_of (done o s) = some o
outcome_of _ = none

second_try :
    outcome_of (run new_loop world (checked false) (codes "fix it")) ≡ some (success true true)
unfolding run run_from run_pulse after_turn validated
second_try = refl

run-Explained_example : Explained (run new_loop world (checked false) (codes "fix it"))
run-Explained_example = run-Explained new_loop world (checked false) (codes "fix it") (refl, tt)
