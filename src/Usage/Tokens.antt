-- ===== src/Usage/Tokens.antt =====
-- `PulseTokens`, `SessionTokens` and their operations. Counts are `u64`.
use vexcoder.Prelude.{
  ℕ, ◌+◌, ◌/◌, Bool, false, ◌&&◌, ◌||◌, List, [], ◌∷◌, ltb, ◌==◌, if◌then◌else◌, length, Text,
  saturating_add,
}

pub record PulseTokens : Type 0 where
  pub input : ℕ
  pub output : ℕ
  pub estimated : Bool
  pub cache_creation_input_tokens : ℕ
  pub cache_read_input_tokens : ℕ

unfoldable pub is_zero : PulseTokens → Bool
is_zero p =
    p.input == 0
    && (p.output == 0 && (p.cache_creation_input_tokens == 0 && p.cache_read_input_tokens == 0))

pub record SessionTokens : Type 0 where
  pub input : ℕ
  pub output : ℕ
  pub last_input : ℕ
  pub last_output : ℕ
  pub last_estimated : Bool
  pub estimated : Bool
  pub cache_creation_input_tokens : ℕ
  pub cache_read_input_tokens : ℕ
  pub last_cache_creation_input_tokens : ℕ
  pub last_cache_read_input_tokens : ℕ

-- `SessionTokens::default`
abbrev pub no_tokens : SessionTokens
no_tokens = record {
  input = 0;
  output = 0;
  last_input = 0;
  last_output = 0;
  last_estimated = false;
  estimated = false;
  cache_creation_input_tokens = 0;
  cache_read_input_tokens = 0;
  last_cache_creation_input_tokens = 0;
  last_cache_read_input_tokens = 0;
}

unfoldable pub record_pulse : SessionTokens → PulseTokens → SessionTokens
record_pulse s pulse = record {
  input = saturating_add s.input pulse.input;
  output = saturating_add s.output pulse.output;
  last_input = pulse.input;
  last_output = pulse.output;
  last_estimated = pulse.estimated;
  estimated = s.estimated || pulse.estimated;
  cache_creation_input_tokens =
      saturating_add s.cache_creation_input_tokens pulse.cache_creation_input_tokens;
  cache_read_input_tokens = saturating_add s.cache_read_input_tokens pulse.cache_read_input_tokens;
  last_cache_creation_input_tokens = pulse.cache_creation_input_tokens;
  last_cache_read_input_tokens = pulse.cache_read_input_tokens;
}

unfoldable pub reset : SessionTokens → SessionTokens
reset s = no_tokens

unfoldable pub has_completed_turns : SessionTokens → Bool
has_completed_turns s =
    ltb 0 s.input || (ltb 0 s.output || (ltb 0 s.last_input || ltb 0 s.last_output))

unfoldable pub last_pulse : SessionTokens → PulseTokens
last_pulse s = record {
  input = s.last_input;
  output = s.last_output;
  estimated = s.last_estimated;
  cache_creation_input_tokens = s.last_cache_creation_input_tokens;
  cache_read_input_tokens = s.last_cache_read_input_tokens;
}

unfoldable pub estimate_tokens : Text → ℕ
estimate_tokens text = let chars = length text in if chars == 0 then 0 else (chars + 3) / 4

-- A session's pulses, the first one first.
abbrev pub record_all : SessionTokens → List PulseTokens → SessionTokens
record_all s [] = s
record_all s (p ∷ ps) = record_all (record_pulse s p) ps
