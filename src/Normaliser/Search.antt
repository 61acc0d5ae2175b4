-- ===== src/Normaliser/Search.antt =====
-- Searches in a text, and the operations of `str` that the normaliser uses
-- (src/api/stream/text_normaliser.rs). A position is the text before it and the text from it on.
use vexcoder.Prelude.{
  ℕ, zero, suc, ◌-◌, true, false, ◌&&◌, Option, none, some, [], ◌∷◌, drop, length, ◌==◌,
  if◌then◌else◌, Text, codes,
}
use vexcoder.Lines.{starts_with, trim_start}

abbrev pub Found : Type 0
Found = Text × Text

abbrev pub ahead : ℕ → Option Found → Option Found
ahead c none = none
ahead c (some (before, rest)) = some (c ∷ before, rest)

-- `str::find` of a text that is not empty
unfoldable pub find : Text → Text → Option Found
unfolding starts_with
find needle [] = none
find needle (c ∷ s) =
    let later = ahead c (find needle s) in
    if starts_with needle (c ∷ s) then some ([], c ∷ s) else later

-- `str::rfind` of a character
unfoldable pub rfind : ℕ → Text → Option Found
rfind x [] = none
rfind x (c ∷ s) = elim (rfind x s) [
  | some (before, rest) ↦ some (c ∷ before, rest)
  | none ↦ if c == x then some ([], c ∷ s) else none
]

-- `replace(needle, "")`: `skip` counts the characters of a match that are still to go.
unfoldable pub delete_from : Text → ℕ → Text → Text
unfolding starts_with
delete_from needle skip [] = []
delete_from needle (suc skip) (c ∷ s) = delete_from needle skip s
delete_from needle zero (c ∷ s) = elim (starts_with needle (c ∷ s)) [
  | true ↦ delete_from needle (length needle - 1) s
  | false ↦ c ∷ delete_from needle 0 s
]

abbrev pub delete : Text → Text → Text
delete needle text = delete_from needle 0 text

abbrev pub trim_left : ℕ → Text → Text
trim_left x [] = []
trim_left x (c ∷ s) = let rest = trim_left x s in if c == x then rest else c ∷ s

abbrev pub trim_right : ℕ → Text → Text
trim_right x [] = []
trim_right x (c ∷ s) = elim (trim_right x s) [
  | [] ↦ if c == x then [] else c ∷ []
  | d ∷ rest ↦ c ∷ d ∷ rest
]

-- `trim_matches` of a character
unfoldable pub trim_matches : ℕ → Text → Text
trim_matches x s = trim_right x (trim_left x s)

-- `find_hermes_json_tool_call`: the first tag that an object follows
unfoldable pub find_hermes_json_tool_call : Text → Option Found
unfolding starts_with trim_start
find_hermes_json_tool_call [] = none
find_hermes_json_tool_call (c ∷ s) =
    let later = ahead c (find_hermes_json_tool_call s) in
    if starts_with (codes "<tool_call>") (c ∷ s)
      && starts_with (codes "{") (trim_start (drop 11 (c ∷ s)))
    then some ([], c ∷ s)
    else later
