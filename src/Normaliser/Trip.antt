-- ===== src/Normaliser/Trip.antt =====
-- The round trip of a call in tags in a streamed text (src/api/stream/text_normaliser.rs).
use vexcoder.Prelude.{
  ◌≡◌, refl, ap, ◌∙◌, inl, inr, suc, ◌+◌, ◌-◌, ◌<◌, false, Bool-cases, [], ◌∷◌, ◌++◌, append_assoc,
  arith, take, length, length-append, is_empty, ltb, Text, codes, text_eq,
}
use vexcoder.Prelude.Assoc.{Assoc, insert}
use vexcoder.Lines.{starts_with, trim_start, trim_end}
use vexcoder.Normaliser.Search.{find}
use vexcoder.Normaliser.Json.{
  Json, call, input_of, read_body, read_tag, parse_single_tagged_tool_call,
}
use vexcoder.Normaliser.Loop.{returned, tagged_tool_call, push_text_chunk, push_call, normalise}
use vexcoder.Normaliser.Finds.{Without, find-here}
use vexcoder.Normaliser.Calls.{closing, Passed, in_text, round-call, normalise-again}
use vexcoder.Normaliser.Written.{
  IsName, Written, AreWritten, in_tags, fields, Passed-append, Passed-plain, in_tags-Passed,
  parameters_from-written,
}

-- The text between the two tags of a call
abbrev pub call_text : Text → Written → Text
call_text name ps = name ++ (codes ">" ++ in_tags ps)

call_text-Passed :
    (name : Text) (ps : Written) → IsName name → AreWritten ps → Passed (call_text name ps)
unfolding find starts_with
call_text-Passed name ps n h =
    Passed-append name (codes ">" ++ in_tags ps) (Passed-plain name n.2)
      (Passed-append (codes ">") (in_tags ps) (λ s. refl) (in_tags-Passed ps h))

take-front : (x y : Text) → take (length x) (x ++ y) ≡ x
take-front [] y = refl
take-front (c ∷ x) y = ap (◌∷◌ c) (take-front x y)

length-in_tags : (ps : Written) → length ps < suc (length (in_tags ps))
length-in_tags [] = omega arith
length-in_tags ((k, v) ∷ ps) =
    let rest = codes "</parameter>" ++ in_tags ps in
    let lk = length-append k (codes ">" ++ (v ++ rest)) in
    let lv = length-append v rest in omega (arith, lk, lv, length-in_tags ps)

module _ (json : Json) where
  open json use {Value, object}

  insert-filled : (k : Text) (v : Value) (m : Assoc Value) → is_empty (insert k v m) ≡ false
  unfolding insert
  insert-filled k v [] = refl
  insert-filled k v ((j, w) ∷ m) = elim (Bool-cases (text_eq j k)) [
    | inl same ↦ rw same refl
    | inr other ↦ rw other refl
  ]

  fields-filled :
      (ps : Written) (input : Assoc Value)
      → is_empty input ≡ false
      → is_empty (fields json input ps) ≡ false
  fields-filled [] input h = h
  fields-filled ((k, v) ∷ ps) input h =
      fields-filled ps (insert k _ input) (insert-filled k _ input)

  input_of-filled :
      (body : Text) (m : Assoc Value) → is_empty m ≡ false → input_of json body m ≡ object m
  input_of-filled body [] h = absurd cc
  input_of-filled body (p ∷ m) h = refl

  input_of-written :
      (ps : Written) → input_of json (in_tags ps) (fields json [] ps) ≡ object (fields json [] ps)
  unfolding starts_with trim_start trim_end
  input_of-written [] = refl
  input_of-written ((k, v) ∷ ps) =
      input_of-filled (in_tags ((k, v) ∷ ps)) (fields json [] ((k, v) ∷ ps))
        (fields-filled ps (insert k _ []) (insert-filled k _ []))

  read_body-written :
      (name : Text) (ps : Written)
      → is_empty name ≡ false
      → AreWritten ps
      → read_body json name (in_tags ps ++ closing) ≡ call name (object (fields json [] ps))
  read_body-written name ps filled h =
      let total : length (in_tags ps ++ closing) ≡ length (in_tags ps) + 11 =
        length-append (in_tags ps) closing in
      let long : ltb (length (in_tags ps ++ closing)) 11 ≡ false = ground (arith, total) in
      let body : take (length (in_tags ps ++ closing) - 11) (in_tags ps ++ closing) ≡ in_tags ps =
        ap (λ n. take n (in_tags ps ++ closing)) (omega (arith, total))
        ∙ take-front (in_tags ps) closing in
      rw filled (
        rw long (
          rw body (
            ap (λ m. call name (input_of json (in_tags ps) m))
              (parameters_from-written json (suc (length (in_tags ps))) ps [] h (length-in_tags ps))
            ∙ ap (call name) (input_of-written ps))))

  parse-written :
      (name : Text) (ps : Written)
      → IsName name
      → AreWritten ps
      → parse_single_tagged_tool_call json (codes "<function=" ++ (call_text name ps ++ closing))
        ≡ call name (object (fields json [] ps))
  unfolding parse_single_tagged_tool_call
  parse-written name ps n h =
      ap (λ s. read_tag json (find (codes ">") s))
        (append_assoc name (codes ">" ++ in_tags ps) closing)
      ∙ (ap (read_tag json)
            (find-here b'>' [] name (in_tags ps ++ closing) n.3 (unfold find starts_with in refl))
          ∙ (ap (λ c. read_body json c (in_tags ps ++ closing)) n.0
              ∙ read_body-written name ps n.1 h))

  -- A call that is written in tags in a text without other tags is given back: the text before it,
  -- the call with its name and with each value as its text is read, and the text behind it, with
  -- nothing left pending. The names are not empty, do not change when cleaned and have no `<` or `>`;
  -- the values, the text before and the text behind have no `<`.
  pub normalise-call_text :
      (prefix name : Text) (ps : Written) (suffix : Text)
      → Without b'<' prefix
      → IsName name
      → AreWritten ps
      → Without b'<' suffix
      → normalise json [] (in_text prefix (call_text name ps) suffix)
        ≡ returned
            (push_text_chunk
              (push_text_chunk [] prefix
                ++ (tagged_tool_call name (object (fields json [] ps)) ∷ []))
              suffix)
            []
  normalise-call_text prefix name ps suffix hp n h hs =
      normalise-again json prefix (call_text name ps) suffix
        (push_text_chunk [] prefix ++ (tagged_tool_call name (object (fields json [] ps)) ∷ []))
        (round-call json prefix (call_text name ps) suffix hp (call_text-Passed name ps n h) hs
          ∙ ap
              (push_call json (push_text_chunk [] prefix)
                (codes "<function=" ++ (call_text name ps ++ closing)) suffix)
              (parse-written name ps n h))
        hs
