-- ===== src/Accumulator/Nesting.antt =====
-- What the JSON prefix test accepts (src/runtime/delta_accumulator.rs).
use vexcoder.Prelude.{
  ◌≡◌, refl, Bool, true, false, inl, inr, [], ◌∷◌, ◌++◌, arith, append_assoc, ◌==◌, if◌then◌else◌,
  Option-cases, Text,
}
use vexcoder.Prelude.Options.{◌>>=◌}
use vexcoder.Accumulator.Json.{JsonScan, scan_start, scan_char, scan, is_valid_json_prefix}

scan-append : (s : JsonScan) (t u : Text) → scan s (t ++ u) ≡ (scan s t >>= λ v. scan v u)
unfolding scan
scan-append s [] u = refl
scan-append s (ch ∷ t) u = elim (Option-cases (scan_char s ch)) [
  | inl e ↦ rw e
  | inr (v, e) ↦ rw e (scan-append v t u)
]

-- The test sees the two texts as one: what is split off the delta may stand with the stored text.
pub is_valid_json_prefix_shift :
    (existing t u : Text)
    → is_valid_json_prefix (existing ++ t) u ≡ is_valid_json_prefix existing (t ++ u)
unfolding is_valid_json_prefix
is_valid_json_prefix_shift existing t u = rw append_assoc

-- What was accepted with more text behind it is accepted alone, so a stream of deltas is refused at
-- the first one that breaks it.
pub is_valid_json_prefix_shorter :
    (existing t u : Text)
    → is_valid_json_prefix existing (t ++ u) ≡ true
    → is_valid_json_prefix existing t ≡ true
unfolding is_valid_json_prefix
is_valid_json_prefix_shorter existing t u h =
    let e : scan scan_start (existing ++ (t ++ u))
        ≡ (scan scan_start (existing ++ t) >>= λ v. scan v u) =
      rw (← append_assoc existing t u) (scan-append scan_start (existing ++ t) u) in
    ground (arith, e)

-- An independent reading. `code_of` is the text with its string literals taken out, each quote kept;
-- the flags say whether the scan begins in a string, and behind a backslash.
abbrev pub code_of : Bool → Bool → Text → Text
code_of in_string escaped [] = []
code_of true true (ch ∷ t) = code_of true false t
code_of true false (ch ∷ t) =
    if ch == b'\\'
    then code_of true true t
    else if ch == b'"'
    then code_of false false t
    else code_of true false t
code_of false escaped (ch ∷ t) =
    if ch == b'"' then code_of true escaped t else ch ∷ code_of false escaped t
