-- ===== src/Normaliser/Panics.antt =====
-- The calls in tags whose reading panics (src/api/stream/text_normaliser.rs).
use vexcoder.Prelude.{
  ◌≡◌, refl, sym, ap, subst, ◌∙◌, inl, inr, ◌↔◌, ◌≢◌, ℕ, false, Option, none, some, [], ◌∷◌, ◌++◌,
  append_assoc, arith, length, length-append, ltb, is_empty, All-append, ◌==◌, Bool-cases, Text,
  codes, is_whitespace,
}
use vexcoder.Lines.{starts_with, trim, trim_start, trim_end}
use vexcoder.Normaliser.Search.{
  Found, find, trim_left, trim_right, trim_matches, find_hermes_json_tool_call,
}
use vexcoder.Normaliser.Json.{
  Json, panicked, clean_name, read_body, read_tag, parse_single_tagged_tool_call,
}
use vexcoder.Normaliser.Loop.{Chunks, choose, function_round, round}
use vexcoder.Normaliser.Finds.{Behind, Without, past-Behind, find-here, hermes-past, first_or_none}

-- The last character of a text.
abbrev EndsIn : ℕ → Text → Type 0
EndsIn n s = (front : Text) × (s ≡ front ++ (n ∷ []))

trim_start-EndsIn : (front : Text) → EndsIn b'n' (trim_start (front ++ (b'n' ∷ [])))
unfolding trim_start is_whitespace
trim_start-EndsIn [] = ([], refl)
trim_start-EndsIn (c ∷ front) = elim (Bool-cases (is_whitespace c)) [
  | inl space ↦ rw space (trim_start-EndsIn front)
  | inr other ↦ rw other (c ∷ front, refl)
]

trim_end-same : (front : Text) → trim_end (front ++ (b'n' ∷ [])) ≡ front ++ (b'n' ∷ [])
unfolding trim_end is_whitespace
trim_end-same [] = refl
trim_end-same (c ∷ []) = refl
trim_end-same (c ∷ d ∷ front) = let ih = trim_end-same (d ∷ front) in rw ih refl

trim-EndsIn : (s : Text) → EndsIn b'n' s → EndsIn b'n' (trim s)
trim-EndsIn s (front, e) =
    let (f, p) = trim_start-EndsIn front in (f, ap trim (e) ∙ (ap trim_end p ∙ trim_end-same f))

module _ (x : ℕ) (other : (b'n' == x) ≡ false) where
  trim_left-EndsIn : (front : Text) → EndsIn b'n' (trim_left x (front ++ (b'n' ∷ [])))
  trim_left-EndsIn [] = rw other ([], refl)
  trim_left-EndsIn (c ∷ front) = elim (Bool-cases (c == x)) [
    | inl out ↦ rw out (trim_left-EndsIn front)
    | inr stays ↦ rw stays (c ∷ front, refl)
  ]

  trim_right-same : (front : Text) → trim_right x (front ++ (b'n' ∷ [])) ≡ front ++ (b'n' ∷ [])
  trim_right-same [] = rw other refl
  trim_right-same (c ∷ []) = rw (other, trim_right) refl
  trim_right-same (c ∷ d ∷ front) = let ih = trim_right-same (d ∷ front) in rw ih refl

trim_matches-EndsIn :
    (x : ℕ) (s : Text) → (b'n' == x) ≡ false → EndsIn b'n' s → EndsIn b'n' (trim_matches x s)
unfolding trim_matches
trim_matches-EndsIn x s n (front, e) =
    let (f, p) = trim_left-EndsIn x n front in
    (f, ap (trim_matches x) e ∙ (ap (trim_right x) p ∙ trim_right-same x n f))

is_empty-end : (n : ℕ) (front : Text) → is_empty (front ++ (n ∷ [])) ≡ false
is_empty-end n [] = refl
is_empty-end n (c ∷ front) = refl

clean_name-filled : (s : Text) → EndsIn b'n' s → is_empty (clean_name s) ≡ false
clean_name-filled s h =
    let (f, p) =
      trim_matches-EndsIn b'\'' (trim_matches b'"' (trim s)) refl
        (trim_matches-EndsIn b'"' (trim s) refl (trim-EndsIn s h)) in
    ap is_empty p ∙ is_empty-end b'n' f

code-Without : Without b'>' (codes "</function")
code-Without = (refl, (refl, (refl, (refl, (refl, (refl, (refl, (refl, (refl, (refl, tt))))))))))

module _ (json : Json) (inner : Text) where
  abbrev written : Text
  written = codes "<function=" ++ (inner ++ codes "</function>")

  Without-panics : Without b'>' inner → parse_single_tagged_tool_call json written ≡ panicked
  unfolding parse_single_tagged_tool_call
  Without-panics h =
      let whole : inner ++ codes "</function>" ≡ (inner ++ codes "</function") ++ (b'>' ∷ []) =
        sym (append_assoc inner (codes "</function") (b'>' ∷ [])) in
      let found : find (codes ">") (inner ++ codes "</function>")
          ≡ some (inner ++ codes "</function", b'>' ∷ []) =
        ap (find (codes ">")) whole
        ∙ find-here b'>' [] (inner ++ codes "</function") []
            (All-append (λ c. (b'>' == c) ≡ false) inner (codes "</function") h code-Without)
            (unfold find starts_with in refl) in
      let filled =
        clean_name-filled (inner ++ codes "</function")
          (inner ++ codes "</functio", sym (append_assoc inner (codes "</functio") (b'n' ∷ []))) in
      ap (read_tag json) found ∙ rw filled refl

  body-reads :
      (name after : Text) → ltb (length after) 11 ≡ false → read_body json name after ≢ panicked
  body-reads name after long = elim (Bool-cases (is_empty name)) [
    | inl none_there ↦ rw none_there (λ e. cc)
    | inr filled ↦ rw filled (rw long (λ e. cc))
  ]

  with-reads :
      (front back : Text)
      → inner ≡ front ++ (b'>' ∷ back)
      → Without b'>' front
      → parse_single_tagged_tool_call json written ≢ panicked
  unfolding parse_single_tagged_tool_call
  with-reads front back e h =
      let whole : inner ++ codes "</function>" ≡ front ++ (b'>' ∷ (back ++ codes "</function>")) =
        ap (λ l. l ++ codes "</function>") e
        ∙ append_assoc front (b'>' ∷ back) (codes "</function>") in
      let found : find (codes ">") (inner ++ codes "</function>")
          ≡ some (front, b'>' ∷ (back ++ codes "</function>")) =
        ap (find (codes ">")) whole
        ∙ find-here b'>' [] front (back ++ codes "</function>") h
            (unfold find starts_with in refl) in
      let long : ltb (length (back ++ codes "</function>")) 11 ≡ false =
        ground (arith, length-append back (codes "</function>")) in
      let read : parse_single_tagged_tool_call json written
          ≡ read_body json (clean_name front) (back ++ codes "</function>") =
        ap (read_tag json) found in
      λ p. body-reads (clean_name front) (back ++ codes "</function>") long (sym read ∙ p)

  -- The reading of a call in tags panics exactly when no `>` stands between the tags: the name then
  -- goes up to the end of the closing tag, and the body would start behind its end.
  pub parse_single_tagged_tool_call-panics :
      (parse_single_tagged_tool_call json written ≡ panicked) ↔ Without b'>' inner
  parse_single_tagged_tool_call-panics = (
    λ e. elim (first_or_none b'>' inner) [
      | inl h ↦ h
      | inr (front, back, p, h) ↦ absurd (with-reads front back p h e)
    ],
    Without-panics,
  )

choose-function :
    (json : Json) (chunks : Chunks json) (pending prefix rest : Text) (h : Option Found)
    → Behind (length prefix) h
    → choose json chunks pending (some (prefix, rest)) h
      ≡ function_round json chunks pending (some (prefix, rest))
choose-function json chunks pending prefix rest none h = refl
choose-function json chunks pending prefix rest (some f) h =
    let later : ltb (length f.0) (length prefix) ≡ false = ground (arith, h) in rw later refl

-- The first round goes to the call in tags where no tag opens before it.
pub round-function :
    (json : Json) (chunks : Chunks json) (prefix rest : Text)
    → Without b'<' prefix
    → round json chunks (prefix ++ (codes "<function=" ++ rest))
      ≡ function_round json chunks
          (prefix ++ (codes "<function=" ++ rest))
          (some (prefix, codes "<function=" ++ rest))
unfolding round
round-function json chunks prefix rest h =
    let pending = prefix ++ (codes "<function=" ++ rest) in
    ap (λ f. choose json chunks pending f (find_hermes_json_tool_call pending))
      (find-here b'<' (codes "function=") prefix rest h (unfold find starts_with in refl))
    ∙ choose-function json chunks pending prefix (codes "<function=" ++ rest)
        (find_hermes_json_tool_call pending)
        (subst (Behind (length prefix)) (sym (hermes-past prefix (codes "<function=" ++ rest) h))
          (past-Behind prefix (find_hermes_json_tool_call (codes "<function=" ++ rest))))
