-- ===== src/EditLoop/Run.antt =====
-- `EditLoop::run`. The model, the validation commands and the user come in as a `World`, which says
-- what each pulse meets; what the loop writes to the transcript is collected.
use vexcoder.Prelude.{
  ℕ, zero, suc, ◌+◌, min, max, Bool, true, false, not, Option, none, some, List, [], ◌∷◌, ◌++◌,
  if◌then◌else◌, Text, codes,
}
use vexcoder.Lines.{decimal}
use vexcoder.EditLoop.Validation.{
  ValidationResult, ValidationOutput, print_int, is_success, format_for_retry,
}

abbrev pub hard_max_turns : ℕ
hard_max_turns = 12

abbrev pub default_max_turns : ℕ
default_max_turns = 6

unfoldable pub clamp_turns : ℕ → ℕ
clamp_turns pulses = min (max pulses 1) hard_max_turns

pub data EditLoopOutcome : Type 0 where
  success : Bool → Bool → EditLoopOutcome
  max_turns_reached : Option Text → EditLoopOutcome
  approval_denied : EditLoopOutcome
  cancelled : EditLoopOutcome

-- `drive_edit_turn`: an error, or whether a patch was applied
pub data TurnResult : Type 0 where
  turn_error : Text → TurnResult
  turned : Bool → TurnResult

-- What a pulse meets: the two tests of the token, the turn, and the validation (`none` is an error).
pub record Pulse : Type 0 where
  pub cancelled_before : Bool
  pub turn : TurnResult
  pub cancelled_after : Bool
  pub validation : Option ValidationResult

-- By the number of the pulse and the message that is sent in it
abbrev pub World : Type 0
World = ℕ → Text → Pulse

pub record EditLoop : Type 0 where
  pub max_turns : ℕ
  pub stop_on_clean_validate : Bool
  pub last_validation_result : Option ValidationResult

-- `EditLoop::new`
abbrev pub new_loop : EditLoop
new_loop = record {
  max_turns = default_max_turns;
  stop_on_clean_validate = true;
  last_validation_result = none;
}

unfoldable pub with_max_turns : EditLoop → ℕ → EditLoop
unfolding clamp_turns
with_max_turns e pulses = record e { max_turns = clamp_turns pulses }

-- The loop's variables
pub record Looping : Type 0 where
  pub loop : EditLoop
  pub retry_context : Text
  pub transcript : List Text

abbrev pub emit : Looping → Text → Looping
emit s line = record s { transcript = s.transcript ++ (line ∷ []) }

-- A pulse goes on to the next one, or ends the loop with an outcome or with an error.
pub data Control : Type 0 where
  next : Looping → Control
  done : EditLoopOutcome → Looping → Control
  failed : Looping → Control

abbrev failing : List ValidationOutput → Text
failing [] = codes "validation failed"
failing (o ∷ os) =
    if is_success o.exit_code
    then failing os
    else o.label ++ (codes " exited with " ++ print_int o.exit_code)

unfoldable pub last_validation_error : Option ValidationResult → Option Text
last_validation_error none = none
last_validation_error (some result) = if result.passed then none else some (failing result.outputs)

abbrev pub message_of : Text → Text → Text
message_of instruction [] = instruction
message_of instruction (c ∷ cs) = instruction ++ (codes "\n\n" ++ (c ∷ cs))

-- The end of the loop's body, behind the validation
unfoldable pub validated : Looping → Bool → Option ValidationResult → Control
validated s patch_applied none = failed s
validated s patch_applied (some result) =
    let stored = record s { loop = record s.loop { last_validation_result = some result } } in
    if result.passed
    then (if s.loop.stop_on_clean_validate
        then done (success patch_applied true)
            (emit stored (codes "[edit loop: validation passed]"))
        else next (emit stored (codes "[edit loop: validation passed]")))
    else next (
        emit (record stored { retry_context = format_for_retry result })
          (codes "[edit loop: validation failed, retrying]"))

unfoldable pub after_turn : Looping → Pulse → TurnResult → Control
unfolding validated
after_turn s p (turn_error err) =
    next (record (emit s (codes "[edit loop pulse error: " ++ (err ++ codes "]"))) {
      retry_context = codes "[previous pulse failed: " ++ (err ++ codes "]");
    })
after_turn s p (turned patch_applied) =
    if p.cancelled_after
    then done cancelled s
    else if not patch_applied
    then next (record (emit s (codes "[edit loop: no patch applied, retrying]")) {
      retry_context = codes "[previous pulse produced no patch; propose and apply a concrete edit]";
    })
    else validated (emit s (codes "[edit loop: running validation]")) patch_applied p.validation

unfoldable pub run_pulse : World → Text → ℕ → Looping → Control
unfolding after_turn
run_pulse world instruction pulse s =
    let p = world pulse (message_of instruction s.retry_context) in
    let started = emit s (
      codes "[edit loop pulse "
      ++ (decimal (pulse + 1) ++ (codes "/" ++ (decimal s.loop.max_turns ++ codes "]")))) in
    if p.cancelled_before then done cancelled s else after_turn started p p.turn

abbrev pub and_then : Control → (Looping → Control) → Control
and_then (next s) rest = rest s
and_then (done o s) rest = done o s
and_then (failed s) rest = failed s

-- `for pulse in 0..self.max_turns`, with the number of pulses left
unfoldable pub run_from : World → Text → ℕ → ℕ → Looping → Control
unfolding run_pulse
run_from world instruction zero pulse s =
    done (max_turns_reached (last_validation_error s.loop.last_validation_result)) s
run_from world instruction (suc left) pulse s =
    and_then (run_pulse world instruction pulse s)
      (λ t. run_from world instruction left (pulse + 1) t)

-- `check_workspace_dirty`: an error, or whether there are uncommitted changes
pub data DirtyCheck : Type 0 where
  checked : Bool → DirtyCheck
  check_error : Text → DirtyCheck

abbrev pub dirty_warning : DirtyCheck → List Text
dirty_warning (checked true) =
    codes
      "[edit loop warning: workspace has uncommitted changes; proceeding without mutating git state]"
    ∷ []
dirty_warning (checked false) = []
dirty_warning (check_error error) =
    (codes "[edit loop warning: skipped workspace-dirty check: " ++ (error ++ codes "]")) ∷ []

unfoldable pub run : EditLoop → World → DirtyCheck → Text → Control
unfolding run_from
run e world dirty instruction =
    run_from world instruction e.max_turns 0
      (record { loop = e; retry_context = []; transcript = dirty_warning dirty })
