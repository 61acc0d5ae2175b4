-- ===== src/EditLoop/Validation.antt =====
-- `ValidationResult` and its text for the next try (src/runtime/validation.rs). Exit codes are `i32`.
use vexcoder.Prelude.{ℕ, suc, Bool, false, List, [], ◌∷◌, ◌++◌, ◌==◌, if◌then◌else◌, Text, codes}
use vexcoder.Lines.{ends_with, decimal}

pub data ℤ : Type 0 where
  pos : ℕ → ℤ
  negsuc : ℕ → ℤ

abbrev pub print_int : ℤ → Text
print_int (pos n) = decimal n
print_int (negsuc n) = b'-' ∷ decimal (suc n)

abbrev pub is_success : ℤ → Bool
is_success (pos n) = n == 0
is_success (negsuc n) = false

pub record ValidationOutput : Type 0 where
  pub label : Text
  pub exit_code : ℤ
  pub stdout_tail : Text
  pub stderr_tail : Text
  pub stdout_tail_limited : Bool
  pub stderr_tail_limited : Bool

pub record ValidationResult : Type 0 where
  pub passed : Bool
  pub outputs : List ValidationOutput

-- One of the two streams of an output
abbrev pub format_stream : Text → Text → Bool → Text
format_stream name [] limited = []
format_stream name (c ∷ cs) limited =
    (if limited then codes "[showing last 8192 bytes of " ++ (name ++ codes "]\n") else [])
    ++ (name
        ++ (codes ":\n```text\n"
            ++ ((c ∷ cs)
                ++ ((if ends_with (b'\n' ∷ []) (c ∷ cs) then [] else b'\n' ∷ [])
                    ++ codes "```\n"))))

abbrev pub format_output : ValidationOutput → Text
format_output o =
    if is_success o.exit_code
    then []
    else codes "\n[command: "
      ++ (o.label
          ++ (codes "]\nexit_code: "
              ++ (print_int o.exit_code
                  ++ (codes "\n"
                      ++ (format_stream (codes "stdout") o.stdout_tail o.stdout_tail_limited
                          ++ format_stream (codes "stderr") o.stderr_tail o.stderr_tail_limited)))))

abbrev pub format_outputs : List ValidationOutput → Text
format_outputs [] = []
format_outputs (o ∷ os) = format_output o ++ format_outputs os

unfoldable pub format_for_retry : ValidationResult → Text
format_for_retry result =
    if result.passed
    then codes "[validation passed]"
    else codes "[validation failed]\n" ++ format_outputs result.outputs
