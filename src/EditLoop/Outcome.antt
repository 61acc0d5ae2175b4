-- ===== src/EditLoop/Outcome.antt =====
-- What the outcome of the loop tells (src/runtime/edit_loop.rs).
use vexcoder.Prelude.{
  ℕ, zero, suc, ◌+◌, ◌≡◌, refl, sym, arith, Bool, true, false, not, inl, inr, Option, none, some,
  if_cases, Bool-cases, Text,
}
use vexcoder.EditLoop.Validation.{ValidationResult}
use vexcoder.EditLoop.Run.{
  EditLoopOutcome, success, max_turns_reached, approval_denied, cancelled, TurnResult, turn_error,
  turned, Pulse, World, EditLoop, Looping, Control, next, done, failed, last_validation_error,
  validated, after_turn, run_pulse, and_then, run_from, run, DirtyCheck, message_of,
}

-- No validation has passed so far, and one that passes ends the loop.
abbrev pub Unpassed : Option ValidationResult → Type 0
Unpassed none = Unit
Unpassed (some r) = r.passed ≡ false

abbrev pub IsOpen : EditLoop → Type 0
IsOpen e = (e.stop_on_clean_validate ≡ true) × Unpassed e.last_validation_result

-- What an outcome says of the last validation: it passed behind a patch, or none has passed and an
-- error is reported just when one was run.
abbrev pub Explains : EditLoopOutcome → Option ValidationResult → Type 0
Explains (success patch_applied validate_passed) none = ⊥
Explains (success patch_applied validate_passed) (some r) =
    (patch_applied ≡ true) × (validate_passed ≡ r.passed) × (r.passed ≡ true)
Explains (max_turns_reached none) last = last ≡ none
Explains (max_turns_reached (some error)) none = ⊥
Explains (max_turns_reached (some error)) (some r) = r.passed ≡ false
Explains approval_denied last = ⊥
Explains cancelled last = Unpassed last

abbrev pub Explained : Control → Type 0
Explained (next s) = IsOpen s.loop
Explained (done o s) = Explains o s.loop.last_validation_result
Explained (failed s) = IsOpen s.loop

validated-Explained :
    (s : Looping) (patch_applied : Bool) (v : Option ValidationResult)
    → patch_applied ≡ true
    → IsOpen s.loop
    → Explained (validated s patch_applied v)
unfolding validated
validated-Explained s patch_applied none a h = h
validated-Explained s patch_applied (some r) a (stop, h) = elim (Bool-cases r.passed) [
  | inl p ↦
      if_cases Explained r.passed _ _
        (λ _.
          if_cases Explained s.loop.stop_on_clean_validate _ _ (λ _. (a, sym p, p))
            (λ n. absurd cc))
        (λ n. absurd cc)
  | inr n ↦ if_cases Explained r.passed _ _ (λ p. absurd cc) (λ _. (stop, n))
]

after_turn-Explained :
    (s : Looping) (p : Pulse) (r : TurnResult) → IsOpen s.loop → Explained (after_turn s p r)
unfolding after_turn
after_turn-Explained s p (turn_error err) h = h
after_turn-Explained s p (turned patch_applied) h =
    if_cases Explained p.cancelled_after _ _ (λ _. h.1)
      (λ _.
        if_cases Explained (not patch_applied) _ _ (λ _. h)
          (λ n. validated-Explained _ patch_applied p.validation (ground (arith, n)) h))

run_pulse-Explained :
    (world : World) (instruction : Text) (pulse : ℕ) (s : Looping)
    → IsOpen s.loop
    → Explained (run_pulse world instruction pulse s)
unfolding run_pulse
run_pulse-Explained world instruction pulse s h =
    let p = world pulse (message_of instruction s.retry_context) in
    if_cases Explained p.cancelled_before _ _ (λ _. h.1) (λ _. after_turn-Explained _ p p.turn h)

exhausted-Explains :
    (last : Option ValidationResult)
    → Unpassed last
    → Explains (max_turns_reached (last_validation_error last)) last
unfolding last_validation_error
exhausted-Explains none h = refl
exhausted-Explains (some r) h =
    if_cases (λ (o : Option Text). Explains (max_turns_reached o) (some r)) r.passed _ _
      (λ p. absurd cc) (λ n. n)

and_then-Explained :
    (c : Control) (rest : Looping → Control)
    → Explained c
    → ((s : Looping) → IsOpen s.loop → Explained (rest s))
    → Explained (and_then c rest)
and_then-Explained (next s) rest h k = k s h
and_then-Explained (done o s) rest h k = h
and_then-Explained (failed s) rest h k = h

run_from-Explained :
    (world : World) (instruction : Text) (left pulse : ℕ) (s : Looping)
    → IsOpen s.loop
    → Explained (run_from world instruction left pulse s)
unfolding run_from
run_from-Explained world instruction zero pulse s h =
    exhausted-Explains s.loop.last_validation_result h.1
run_from-Explained world instruction (suc left) pulse s h =
    and_then-Explained (run_pulse world instruction pulse s) _
      (run_pulse-Explained world instruction pulse s h)
      (λ t k. run_from-Explained world instruction left (pulse + 1) t k)

-- Run from a loop that stops at the first validation to pass and has stored none that passed:
-- success comes with an applied patch and a stored validation that passed; the limit on turns
-- with no error just when no validation is stored, and otherwise with a stored one that failed; a
-- cancelled loop and one that a validation error ends have stored none that passed; and no
-- approval is denied.
pub run-Explained :
    (e : EditLoop) (world : World) (dirty : DirtyCheck) (instruction : Text)
    → IsOpen e
    → Explained (run e world dirty instruction)
unfolding run
run-Explained e world dirty instruction h = run_from-Explained world instruction e.max_turns 0 _ h
