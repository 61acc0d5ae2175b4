-- ===== src/Normaliser/Tests.antt =====
-- Calls in tags in short texts, read over a small JSON library.
use vexcoder.Prelude.{◌≡◌, ◌≢◌, refl, Option, none, some, [], ◌∷◌, Text, codes, is_whitespace}
use vexcoder.Prelude.Assoc.{Assoc, insert}
use vexcoder.Lines.{starts_with, trim_start, trim_end}
use vexcoder.Normaliser.Search.{trim_matches}
use vexcoder.Normaliser.Json.{Json, tagged_parameter_json_value, normalize_tagged_parameter_value}
use vexcoder.Normaliser.Loop.{
  text_chunk, tagged_tool_call, returned, crashed, out_of_fuel, normalise,
}
use vexcoder.Normaliser.Ends.{normalise-ne-out_of_fuel}
use vexcoder.Normaliser.Crash.{normalise-crashes}
use vexcoder.Normaliser.Written.{IsName, fields}
use vexcoder.Normaliser.Trip.{normalise-call_text}

-- Texts, and objects as chains of fields
data Tree : Type 0 where
  words : Text → Tree
  no_fields : Tree
  field : Text → Tree → Tree → Tree

abbrev words_of : Tree → Option Text
words_of (words s) = some s
words_of no_fields = none
words_of (field k v rest) = none

abbrev fields_of : Tree → Option (Assoc Tree)
fields_of (words s) = none
fields_of no_fields = some []
fields_of (field k v rest) =
    let later = fields_of rest in elim later [ none ↦ none | some m ↦ some ((k, v) ∷ m) ]

abbrev tree_of : Assoc Tree → Tree
tree_of [] = no_fields
tree_of ((k, v) ∷ m) = field k v (tree_of m)

abbrev trees : Json
trees = record {
  Value = Tree;
  from_str = λ s. none;
  as_str = words_of;
  as_object = fields_of;
  string = words;
  object = tree_of;
  parse_u64 = λ s. none;
  parse_i64 = λ s. none;
  parse_f64 = λ s. none;
}

abbrev ended : Text
ended = codes "<function=a><function=b"

normalise-ne-out_of_fuel_example : normalise trees (codes "hm <tool_call>{") ended ≢ out_of_fuel
normalise-ne-out_of_fuel_example = normalise-ne-out_of_fuel trees (codes "hm <tool_call>{") ended

normalise-crashes_example : normalise trees [] (codes "x <function=foo</function>!") ≡ crashed
normalise-crashes_example =
    normalise-crashes trees (codes "x ") (codes "foo") (codes "!") (refl, (refl, tt))
      (refl, (refl, (refl, tt))) (refl, (refl, (refl, tt))) (refl, tt)

read_IsName : IsName (codes "read")
unfolding trim_matches trim_start trim_end is_whitespace
read_IsName = (refl, refl, (refl, (refl, (refl, (refl, tt)))), (refl, (refl, (refl, (refl, tt)))))

path_IsName : IsName (codes "p")
unfolding trim_matches trim_start trim_end is_whitespace
path_IsName = (refl, refl, (refl, tt), (refl, tt))

path_fields :
    fields trees [] ((codes "p", codes "a.rs") ∷ []) ≡ (codes "p", words (codes "a.rs")) ∷ []
unfolding insert tagged_parameter_json_value normalize_tagged_parameter_value starts_with trim_start
    trim_end is_whitespace
path_fields = refl

normalise-call_text_example :
    normalise trees [] (codes "ok <function=read><parameter=p>a.rs</parameter></function>!")
    ≡ returned
        (text_chunk (codes "ok ")
          ∷ tagged_tool_call
              (codes "read")
              (tree_of (fields trees [] ((codes "p", codes "a.rs") ∷ [])))
          ∷ text_chunk (codes "!")
          ∷ [])
        []
normalise-call_text_example =
    normalise-call_text trees (codes "ok ") (codes "read") ((codes "p", codes "a.rs") ∷ [])
      (codes "!") (refl, (refl, (refl, tt))) read_IsName
      ((path_IsName, (refl, (refl, (refl, (refl, tt))))), tt) (refl, tt)
