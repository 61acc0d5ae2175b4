-- ===== src/Normaliser/Written.antt =====
-- A call written in tags and what is read back (src/api/stream/text_normaliser.rs).
use vexcoder.Prelude.{
  ◌≡◌, refl, sym, ap, subst, ◌∙◌, ℕ, zero, suc, ◌<◌, false, Option, some, none, List, [], ◌∷◌, ◌++◌,
  append_assoc, arith, drop, length, is_empty, ltb, Text, codes,
}
use vexcoder.Prelude.Assoc.{Assoc, insert}
use vexcoder.Lines.{starts_with}
use vexcoder.Normaliser.Search.{Found, find}
use vexcoder.Normaliser.Json.{
  Json, clean_name, tagged_parameter_json_value, value_ends, with_parameter, value_end,
  parameters_from,
}
use vexcoder.Normaliser.Finds.{Without, Behind, past, past-Behind, find-past, find-here}
use vexcoder.Normaliser.Calls.{closing, Passed}

-- A name that the tags keep as it is
abbrev pub IsName : Text → Type 0
IsName n = (clean_name n ≡ n) × (is_empty n ≡ false) × Without b'<' n × Without b'>' n

abbrev pub Written : Type 0
Written = List (Text × Text)

abbrev pub AreWritten : Written → Type 0
AreWritten [] = Unit
AreWritten ((k, v) ∷ ps) = (IsName k × Without b'<' v) × AreWritten ps

abbrev pub in_tags : Written → Text
in_tags [] = []
in_tags ((k, v) ∷ ps) =
    codes "<parameter=" ++ (k ++ (codes ">" ++ (v ++ (codes "</parameter>" ++ in_tags ps))))

-- The fields that the parameters give, each with the value that its text is read as
abbrev pub fields : (json : Json) → Assoc (Json.Value json) → Written → Assoc (Json.Value json)
fields json input [] = input
fields json input ((k, v) ∷ ps) =
    fields json (insert k (tagged_parameter_json_value json v) input) ps

past_append : (a b : Text) (f : Option Found) → past (a ++ b) f ≡ past a (past b f)
past_append [] b f = refl
past_append (c ∷ a) b f = let ih = past_append a b f in rw ih refl

pub Passed-append : (a b : Text) → Passed a → Passed b → Passed (a ++ b)
Passed-append a b ha hb = λ s.
    ap (find closing) (append_assoc a b s)
    ∙ (ha (b ++ s) ∙ (ap (past a) (hb s) ∙ sym (past_append a b (find closing s))))

pub Passed-plain : (a : Text) → Without b'<' a → Passed a
Passed-plain a h = λ s. find-past b'<' (codes "/function>") a s h

pub in_tags-Passed : (ps : Written) → AreWritten ps → Passed (in_tags ps)
unfolding find starts_with
in_tags-Passed [] h = λ s. refl
in_tags-Passed ((k, v) ∷ ps) ((name, value), h) =
    Passed-append (codes "<parameter=")
      (k ++ (codes ">" ++ (v ++ (codes "</parameter>" ++ in_tags ps)))) (λ s. refl)
      (Passed-append k (codes ">" ++ (v ++ (codes "</parameter>" ++ in_tags ps)))
        (Passed-plain k name.2)
        (Passed-append (codes ">") (v ++ (codes "</parameter>" ++ in_tags ps)) (λ s. refl)
          (Passed-append v (codes "</parameter>" ++ in_tags ps) (Passed-plain v value)
            (Passed-append (codes "</parameter>") (in_tags ps) (λ s. refl) (in_tags-Passed ps h)))))

module _ (json : Json) where
  value_ends-first :
      (text v rest : Text) (f : Option Found)
      → Behind (length v) f
      → value_ends json text (some (v, rest)) f ≡ (v, drop 12 rest)
  value_ends-first text v rest none h = refl
  value_ends-first text v rest (some g) h =
      let later : ltb (length g.0) (length v) ≡ false = ground (arith, h) in rw later refl

  value_end-written :
      (v : Text) (ps : Written)
      → Without b'<' v
      → value_end json (v ++ (codes "</parameter>" ++ in_tags ps)) ≡ (v, in_tags ps)
  unfolding find starts_with
  value_end-written v ps h =
      let text = v ++ (codes "</parameter>" ++ in_tags ps) in
      ap (λ f. value_ends json text f (find (codes "<parameter=") text))
        (find-here b'<' (codes "/parameter>") v (in_tags ps) h refl)
      ∙ value_ends-first text v (codes "</parameter>" ++ in_tags ps)
          (find (codes "<parameter=") text)
          (subst (Behind (length v))
            (sym (find-past b'<' (codes "parameter=") v (codes "</parameter>" ++ in_tags ps) h))
            (past-Behind v (find (codes "<parameter=") (codes "</parameter>" ++ in_tags ps))))

  with_parameter-name :
      (k v : Text) (input : Assoc (Json.Value json))
      → IsName k
      → with_parameter json (clean_name k) v input
        ≡ insert k (tagged_parameter_json_value json v) input
  with_parameter-name k v input name =
      ap (λ key. with_parameter json key v input) name.0 ∙ rw name.1 refl

  parameters_from-step :
      (fuel : ℕ) (k v : Text) (ps : Written) (input : Assoc (Json.Value json))
      → IsName k
      → Without b'<' v
      → parameters_from json (suc fuel) (in_tags ((k, v) ∷ ps)) input
        ≡ parameters_from json fuel
            (in_tags ps)
            (insert k (tagged_parameter_json_value json v) input)
  unfolding parameters_from find starts_with
  parameters_from-step fuel k v ps input name value =
      ap
        (λ f. elim f [
          | none ↦ input
          | some (key, close) ↦
              let (v, rest) = value_end json (drop 1 close) in
              parameters_from json fuel rest (with_parameter json (clean_name key) v input)
        ])
        (find-here b'>' [] k (v ++ (codes "</parameter>" ++ in_tags ps)) name.3 refl)
      ∙ (ap (λ e. parameters_from json fuel e.1 (with_parameter json (clean_name k) e.0 input))
            (value_end-written v ps value)
          ∙ ap (parameters_from json fuel (in_tags ps)) (with_parameter-name k v input name))

  pub parameters_from-written :
      (fuel : ℕ) (ps : Written) (input : Assoc (Json.Value json))
      → AreWritten ps
      → length ps < fuel
      → parameters_from json fuel (in_tags ps) input ≡ fields json input ps
  parameters_from-written zero ps input h enough = absurd (omega (arith, enough))
  parameters_from-written (suc fuel) [] input h enough = unfold parameters_from find in refl
  parameters_from-written (suc fuel) ((k, v) ∷ ps) input h enough =
      parameters_from-step fuel k v ps input h.0.0 h.0.1
      ∙ parameters_from-written fuel ps (insert k (tagged_parameter_json_value json v) input) h.1
          (omega (arith, enough))
