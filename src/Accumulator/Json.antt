-- ===== src/Accumulator/Json.antt =====
-- `is_valid_json_prefix` (src/runtime/delta_accumulator.rs). The depths are `i32` in the source
-- and never negative where the scan goes on.
use vexcoder.Prelude.{
  ℕ, ◌+◌, ◌-◌, Bool, true, false, Option, none, some, [], ◌∷◌, ◌++◌, ◌==◌, if◌then◌else◌, Text,
}
use vexcoder.Prelude.Options.{◌>>=◌}
use vexcoder.Prelude.Assoc.{is_some}

pub record JsonScan : Type 0 where
  pub brace_depth : ℕ
  pub bracket_depth : ℕ
  pub in_string : Bool
  pub escaped : Bool

abbrev pub scan_start : JsonScan
scan_start = record { brace_depth = 0; bracket_depth = 0; in_string = false; escaped = false }

unfoldable pub scan_in_string : JsonScan → ℕ → JsonScan
scan_in_string s ch =
    if s.escaped
    then record s { escaped = false }
    else if ch == b'\\'
    then record s { escaped = true }
    else if ch == b'"'
    then record s { in_string = false }
    else s

-- `none` is `return false`.
unfoldable pub scan_outside : JsonScan → ℕ → Option JsonScan
scan_outside s ch =
    if ch == b'"'
    then some (record s { in_string = true })
    else if ch == b'{'
    then some (record s { brace_depth = s.brace_depth + 1 })
    else if ch == b'}'
    then (if s.brace_depth == 0 then none else some (record s { brace_depth = s.brace_depth - 1 }))
    else if ch == b'['
    then some (record s { bracket_depth = s.bracket_depth + 1 })
    else if ch == b']'
    then (if s.bracket_depth == 0
        then none
        else some (record s { bracket_depth = s.bracket_depth - 1 }))
    else some s

unfoldable pub scan_char : JsonScan → ℕ → Option JsonScan
unfolding scan_in_string scan_outside
scan_char s ch = if s.in_string then some (scan_in_string s ch) else scan_outside s ch

unfoldable pub scan : JsonScan → Text → Option JsonScan
scan s [] = some s
scan s (ch ∷ rest) = do t ← scan_char s ch; scan t rest

unfoldable pub is_valid_json_prefix : Text → Text → Bool
is_valid_json_prefix existing incoming = is_some (scan scan_start (existing ++ incoming))
