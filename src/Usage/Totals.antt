-- ===== src/Usage/Totals.antt =====
-- What the counters say of a whole session (src/usage.rs).
use vexcoder.Prelude.{
  ℕ, ◌+◌, ◌*◌, ◌≤◌, ◌<◌, min, ◌≡◌, refl, ◌∙◌, Bool, true, false, ◌||◌, List, [], ◌∷◌, arith, any,
  length, Text, saturating_add, saturating_add_lem, word_max,
}
use vexcoder.Usage.Tokens.{
  PulseTokens, SessionTokens, record_pulse, record_all, last_pulse, estimate_tokens,
}

abbrev pub total : (PulseTokens → ℕ) → List PulseTokens → ℕ
total f [] = 0
total f (p ∷ ps) = f p + total f ps

-- What the counters say of the pulses.
abbrev pub Totals : SessionTokens → List PulseTokens → SessionTokens → Type 0
Totals s ps t =
    (t.input ≡ min (s.input + total (λ p. p.input) ps) word_max)
    × (t.output ≡ min (s.output + total (λ p. p.output) ps) word_max)
    × (t.cache_creation_input_tokens
        ≡ min (s.cache_creation_input_tokens + total (λ p. p.cache_creation_input_tokens) ps)
            word_max)
    × (t.cache_read_input_tokens
        ≡ min (s.cache_read_input_tokens + total (λ p. p.cache_read_input_tokens) ps) word_max)
    × (t.estimated ≡ (s.estimated || any (λ (p : PulseTokens). p.estimated) ps))

-- The counters are machine words.
abbrev pub IsWords : SessionTokens → Type 0
IsWords s =
    (s.input ≤ word_max)
    × (s.output ≤ word_max)
    × (s.cache_creation_input_tokens ≤ word_max)
    × (s.cache_read_input_tokens ≤ word_max)

||_assoc : (a b c : Bool) → ((a || b) || c) ≡ (a || (b || c))
||_assoc true b c = refl
||_assoc false b c = refl

||_false : (a : Bool) → a ≡ (a || false)
||_false true = refl
||_false false = refl

added : (a x rest : ℕ) → min (saturating_add a x + rest) word_max ≡ min (a + (x + rest)) word_max
added a x rest = omega (arith, saturating_add_lem a x)

record_pulse-IsWords : (s : SessionTokens) (p : PulseTokens) → IsWords (record_pulse s p)
unfolding record_pulse
record_pulse-IsWords s p = (
  omega (arith, saturating_add_lem s.input p.input),
  omega (arith, saturating_add_lem s.output p.output),
  omega (arith, saturating_add_lem s.cache_creation_input_tokens p.cache_creation_input_tokens),
  omega (arith, saturating_add_lem s.cache_read_input_tokens p.cache_read_input_tokens),
)

-- After any pulses, from counters that are machine words, the four counts of a session are the
-- old ones and the sums over the pulses, held at the largest number of 64 bits, and the session
-- is an estimate just when it was one or a pulse is.
pub record_all-Totals :
    (s : SessionTokens) (ps : List PulseTokens) → IsWords s → Totals s ps (record_all s ps)
unfolding record_pulse
record_all-Totals s [] (a, b, c, d) =
    (omega (arith, a), omega (arith, b), omega (arith, c), omega (arith, d), ||_false s.estimated)
record_all-Totals s (p ∷ ps) h =
    let (a, b, c, d, e) = record_all-Totals (record_pulse s p) ps (record_pulse-IsWords s p) in
    (
      a ∙ added s.input p.input (total (λ q. q.input) ps),
      b ∙ added s.output p.output (total (λ q. q.output) ps),
      c
          ∙ added s.cache_creation_input_tokens p.cache_creation_input_tokens
              (total (λ q. q.cache_creation_input_tokens) ps),
      d
          ∙ added s.cache_read_input_tokens p.cache_read_input_tokens
              (total (λ q. q.cache_read_input_tokens) ps),
      e ∙ ||_assoc s.estimated p.estimated (any (λ (q : PulseTokens). q.estimated) ps),
    )

-- The last pulse can be read back, after any session before it.
pub last_pulse-record_pulse :
    (s : SessionTokens) (p : PulseTokens) → last_pulse (record_pulse s p) ≡ p
unfolding record_pulse last_pulse
last_pulse-record_pulse s p = refl

-- The estimate is the number of groups of four characters that hold the text.
pub estimate_tokens-bounds :
    (text : Text)
    → (length text ≤ 4 * estimate_tokens text) × (4 * estimate_tokens text < length text + 4)
unfolding estimate_tokens
estimate_tokens-bounds text = ground arith
