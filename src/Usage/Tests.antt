-- ===== src/Usage/Tests.antt =====
-- A session of two pulses.
use vexcoder.Prelude.{◌≤◌, ◌<◌, ◌+◌, ◌-◌, ◌*◌, ◌^◌, ◌≡◌, true, false, [], ◌∷◌, arith, length, codes}
use vexcoder.Usage.Tokens.{
  PulseTokens, no_tokens, record_pulse, record_all, last_pulse, estimate_tokens,
}
use vexcoder.Usage.Totals.{
  Totals, record_all-Totals, last_pulse-record_pulse, estimate_tokens-bounds,
}

abbrev counted : PulseTokens
counted = record {
  input = 120;
  output = 30;
  estimated = false;
  cache_creation_input_tokens = 0;
  cache_read_input_tokens = 64;
}

abbrev guessed : PulseTokens
guessed = record {
  input = 2 ^ 64 - 1;
  output = 9;
  estimated = true;
  cache_creation_input_tokens = 4;
  cache_read_input_tokens = 0;
}

Totals_example :
    Totals no_tokens (counted ∷ guessed ∷ []) (record_all no_tokens (counted ∷ guessed ∷ []))
Totals_example =
    record_all-Totals no_tokens (counted ∷ guessed ∷ [])
      (omega arith, omega arith, omega arith, omega arith)

last_pulse_example : last_pulse (record_pulse no_tokens guessed) ≡ guessed
last_pulse_example = last_pulse-record_pulse no_tokens guessed

estimate_tokens_example :
    (length (codes "hello") ≤ 4 * estimate_tokens (codes "hello"))
    × (4 * estimate_tokens (codes "hello") < length (codes "hello") + 4)
estimate_tokens_example = estimate_tokens-bounds (codes "hello")
