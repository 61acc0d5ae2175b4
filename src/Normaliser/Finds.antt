-- ===== src/Normaliser/Finds.antt =====
-- Searches past a text that the tag does not open in (src/api/stream/text_normaliser.rs).
use vexcoder.Prelude.{
  ◌≡◌, refl, ap, ◌∙◌, inl, inr, ◌⊎◌, ℕ, suc, ◌≤◌, false, Option, none, some, [], ◌∷◌, ◌++◌,
  append-nil, arith, length, All, ◌==◌, Bool-cases, Text, codes,
}
use vexcoder.Lines.{starts_with}
use vexcoder.Normaliser.Search.{
  Found, ahead, find, rfind, delete_from, delete, find_hermes_json_tool_call,
}
use vexcoder.Normaliser.Tags.{strip_tool_call_wrappers, split_incomplete_tool_tag_suffix}

-- The character does not stand in the text.
abbrev pub Without : ℕ → Text → Type 0
Without n = All (λ c. (n == c) ≡ false)

abbrev pub past : Text → Option Found → Option Found
past [] f = f
past (c ∷ front) f = ahead c (past front f)

pub past-some : (front a b : Text) → past front (some (a, b)) ≡ some (front ++ a, b)
past-some [] a b = refl
past-some (c ∷ front) a b = let ih = past-some front a b in rw ih refl

pub past-none : (front : Text) → past front none ≡ none
past-none [] = refl
past-none (c ∷ front) = let ih = past-none front in rw ih refl

-- What is found is not ahead of a text that the search passes.
abbrev pub Behind : ℕ → Option Found → Type 0
Behind n none = Unit
Behind n (some (before, rest)) = n ≤ length before

ahead-Behind : (c n : ℕ) (f : Option Found) → Behind n f → Behind (suc n) (ahead c f)
ahead-Behind c n none h = tt
ahead-Behind c n (some (before, rest)) h = omega (arith, h)

any-Behind : (f : Option Found) → Behind 0 f
any-Behind none = tt
any-Behind (some f) = omega arith

pub past-Behind : (front : Text) (f : Option Found) → Behind (length front) (past front f)
past-Behind [] f = any-Behind f
past-Behind (c ∷ front) f = ahead-Behind c (length front) (past front f) (past-Behind front f)

module _ (n : ℕ) (ns : Text) where
  pub find-past :
      (front s : Text) → Without n front → find (n ∷ ns) (front ++ s) ≡ past front (find (n ∷ ns) s)
  unfolding find starts_with
  find-past [] s h = refl
  find-past (c ∷ front) s h = rw h.0 (ap (ahead c) (find-past front s h.1))

  pub find-here :
      (front s : Text)
      → Without n front
      → find (n ∷ ns) ((n ∷ ns) ++ s) ≡ some ([], (n ∷ ns) ++ s)
      → find (n ∷ ns) (front ++ ((n ∷ ns) ++ s)) ≡ some (front, (n ∷ ns) ++ s)
  find-here front s h e =
      find-past front ((n ∷ ns) ++ s) h
      ∙ (ap (past front) e
          ∙ (past-some front [] ((n ∷ ns) ++ s)
              ∙ ap (λ l. some (l, (n ∷ ns) ++ s)) (append-nil front)))

  pub find-absent : (s : Text) → Without n s → find (n ∷ ns) s ≡ none
  unfolding find starts_with
  find-absent [] h = refl
  find-absent (c ∷ s) h = rw h.0 (ap (ahead c) (find-absent s h.1))

pub hermes-past :
    (front s : Text)
    → Without b'<' front
    → find_hermes_json_tool_call (front ++ s) ≡ past front (find_hermes_json_tool_call s)
unfolding find_hermes_json_tool_call starts_with
hermes-past [] s h = refl
hermes-past (c ∷ front) s h = rw h.0 (ap (ahead c) (hermes-past front s h.1))

pub hermes-absent : (s : Text) → Without b'<' s → find_hermes_json_tool_call s ≡ none
unfolding find_hermes_json_tool_call starts_with
hermes-absent [] h = refl
hermes-absent (c ∷ s) h = rw h.0 (ap (ahead c) (hermes-absent s h.1))

delete-absent : (n : ℕ) (ns s : Text) → Without n s → delete (n ∷ ns) s ≡ s
unfolding delete_from starts_with
delete-absent n ns [] h = refl
delete-absent n ns (c ∷ s) h = rw (h.0, delete_from) (ap (◌∷◌ c) (delete-absent n ns s h.1))

pub strip-absent : (s : Text) → Without b'<' s → strip_tool_call_wrappers s ≡ s
unfolding strip_tool_call_wrappers
strip-absent s h =
    ap (delete (codes "</tool_call>")) (delete-absent b'<' (codes "tool_call>") s h)
    ∙ delete-absent b'<' (codes "/tool_call>") s h

rfind-absent : (s : Text) → Without b'<' s → rfind b'<' s ≡ none
unfolding rfind
rfind-absent [] h = refl
rfind-absent (c ∷ s) h = let ih = rfind-absent s h.1 in rw ih (ground (arith, h.0))

pub split-absent : (s : Text) → Without b'<' s → split_incomplete_tool_tag_suffix s ≡ (s, [])
unfolding split_incomplete_tool_tag_suffix
split-absent s h = rw (rfind-absent s h) refl

-- A text has the character, or parts at the first one.
pub first_or_none :
    (n : ℕ) (s : Text)
    → Without n s ⊎ ((front : Text) × (back : Text) × (s ≡ front ++ (n ∷ back)) × Without n front)
first_or_none n [] = inl tt
first_or_none n (c ∷ s) = elim (Bool-cases (n == c)) [
  | inl here ↦ inr ([], s, ground (arith, here), tt)
  | inr not_here ↦ elim (first_or_none n s) [
    | inl none_there ↦ inl (not_here, none_there)
    | inr (front, back, e, h) ↦ inr (c ∷ front, back, ap (◌∷◌ c) e, (not_here, h))
  ]
]
