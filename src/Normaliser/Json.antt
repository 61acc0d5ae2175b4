-- ===== src/Normaliser/Json.antt =====
-- What the normaliser uses of the JSON library and of number parsing, and the reading of one tool
-- call (src/api/stream/text_normaliser.rs). An object is the list of its fields.
use vexcoder.Prelude.{
  ℕ, zero, suc, ◌-◌, ◌&&◌, Option, none, some, [], ◌∷◌, drop, take, length, is_empty, ltb, ◌==◌,
  if◌then◌else◌, Text, codes,
}
use vexcoder.Prelude.Assoc.{Assoc, lookup, insert}
use vexcoder.Lines.{starts_with, trim}
use vexcoder.Normaliser.Search.{Found, find, trim_matches}

pub record Json : Type 1 where
  pub Value : Type 0
  pub from_str : Text → Option Value
  pub as_str : Value → Option Text
  pub as_object : Value → Option (Assoc Value)
  pub string : Text → Value
  pub object : Assoc Value → Value
  -- `parse` as `u64`, `i64` or `f64`, and the number of JSON that it gives
  pub parse_u64 : Text → Option Value
  pub parse_i64 : Text → Option Value
  pub parse_f64 : Text → Option Value

-- A call that is read, none, or a slice whose start lies behind its end
pub data Parsed (A : Type 0) : Type 0 where
  call : Text → A → Parsed A
  nothing : Parsed A
  panicked : Parsed A

abbrev pub or_else : {A : Type 0} → Option A → A → A
or_else none a = a
or_else (some b) a = b

abbrev pub clean_name : Text → Text
clean_name s = trim_matches b'\'' (trim_matches b'"' (trim s))

-- `replace("\r\n", "\n")`
abbrev pub unix_lines : Text → Text
unix_lines [] = []
unix_lines (c ∷ s) =
    let rest = unix_lines s in if c == b'\r' && starts_with (b'\n' ∷ []) s then rest else c ∷ rest

abbrev drop_first_lf : Text → Text
drop_first_lf [] = []
drop_first_lf (c ∷ s) = if c == b'\n' then s else c ∷ s

abbrev drop_last_lf : Text → Text
drop_last_lf [] = []
drop_last_lf (c ∷ []) = if c == b'\n' then [] else c ∷ []
drop_last_lf (c ∷ d ∷ s) = c ∷ drop_last_lf (d ∷ s)

unfoldable pub normalize_tagged_parameter_value : Text → Text
unfolding starts_with
normalize_tagged_parameter_value raw = drop_last_lf (drop_first_lf (unix_lines raw))

module _ (json : Json) where
  open json use {
    Value, from_str, as_str, as_object, string, object, parse_u64, parse_i64, parse_f64,
  }

  -- `from_str` where the value is not a string
  abbrev unquoted : Option Value → Option Value
  unquoted none = none
  unquoted (some v) = elim (as_str v) [ none ↦ some v | some s ↦ none ]

  abbrev first_of : Option Value → Option Value → Option Value
  first_of none b = b
  first_of (some a) b = some a

  unfoldable pub tagged_parameter_json_value : Text → Value
  unfolding normalize_tagged_parameter_value
  tagged_parameter_json_value raw =
      let value = normalize_tagged_parameter_value raw in
      let trimmed = trim value in
      if is_empty trimmed
      then string value
      else or_else
          (first_of (unquoted (from_str trimmed))
            (first_of (parse_u64 trimmed) (first_of (parse_i64 trimmed) (parse_f64 trimmed))))
          (string value)

  -- Where the value of a parameter ends, and where the loop goes on
  abbrev pub value_ends : Text → Option Found → Option Found → Text × Text
  value_ends text (some (value, rest)) (some (before, next)) =
      if ltb (length before) (length value) then (before, next) else (value, drop 12 rest)
  value_ends text (some (value, rest)) none = (value, drop 12 rest)
  value_ends text none (some (before, next)) = (before, next)
  value_ends text none none = (text, [])

  abbrev pub value_end : Text → Text × Text
  value_end text =
      value_ends text (find (codes "</parameter>") text) (find (codes "<parameter=") text)

  abbrev pub with_parameter : Text → Text → Assoc Value → Assoc Value
  with_parameter key raw input =
      if is_empty key then input else insert key (tagged_parameter_json_value raw) input

  -- The loop over the parameters; the cursor is the text from it on.
  unfoldable pub parameters_from : ℕ → Text → Assoc Value → Assoc Value
  unfolding find tagged_parameter_json_value
  parameters_from zero text input = input
  parameters_from (suc fuel) text input = elim (find (codes "<parameter=") text) [
    | none ↦ input
    | some (_, tag) ↦ elim (find (codes ">") (drop 11 tag)) [
      | none ↦ input
      | some (key, close) ↦
          let (value, rest) = value_end (drop 1 close) in
          parameters_from fuel rest (with_parameter (clean_name key) value input)
    ]
  ]

  abbrev pub parse_tagged_parameters : Text → Assoc Value
  parse_tagged_parameters body = parameters_from (suc (length body)) body []

  -- The object that the body holds where it holds no parameter
  abbrev pub body_object : Text → Assoc Value
  body_object body =
      let trimmed = trim body in
      if starts_with (codes "{") trimmed
      then or_else (elim (from_str trimmed) [ none ↦ none | some v ↦ as_object v ]) []
      else []

  abbrev pub input_of : Text → Assoc Value → Value
  input_of body [] = object (body_object body)
  input_of body (p ∷ params) = object (p ∷ params)

  abbrev pub read_body : Text → Text → Parsed Value
  read_body name after =
      if is_empty name
      then nothing
      else if ltb (length after) 11
      then panicked
      else let body = take (length after - 11) after in
        call name (input_of body (parse_tagged_parameters body))

  -- What the search for the `>` of the opening tag leads to
  abbrev pub read_tag : Option Found → Parsed Value
  read_tag none = nothing
  read_tag (some (name, close)) = read_body (clean_name name) (drop 1 close)

  unfoldable pub parse_single_tagged_tool_call : Text → Parsed Value
  unfolding find parameters_from
  parse_single_tagged_tool_call raw = read_tag (find (codes ">") (drop 10 raw))

  abbrev arguments : Option Value → Value
  arguments none = object []
  arguments (some v) = elim (as_str v) [ none ↦ v | some s ↦ or_else (from_str s) (object []) ]

  abbrev named : Assoc Value → Option Text → Option (Text × Value)
  named fields none = none
  named fields (some name) =
      if is_empty (trim name)
      then none
      else some (trim name, arguments (lookup (codes "arguments") fields))

  abbrev of_fields : Option (Assoc Value) → Option (Text × Value)
  of_fields none = none
  of_fields (some fields) =
      named fields (elim (lookup (codes "name") fields) [ none ↦ none | some v ↦ as_str v ])

  unfoldable pub parse_hermes_json_tool_call : Text → Option (Text × Value)
  unfolding lookup
  parse_hermes_json_tool_call content = elim (from_str content) [
    | none ↦ none
    | some obj ↦ of_fields (as_object obj)
  ]
