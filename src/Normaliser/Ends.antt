-- ===== src/Normaliser/Ends.antt =====
-- Every call of the normaliser ends (src/api/stream/text_normaliser.rs).
use vexcoder.Prelude.{
  ◌≡◌, subst, inl, inr, ◌≢◌, ℕ, zero, suc, ◌+◌, ◌≤◌, ◌<◌, Option, none, some, [], ◌∷◌, ◌++◌, arith,
  drop, length, length-drop, if_both, ◌&&◌, ltb, Bool-cases, Text, codes,
}
use vexcoder.Lines.{starts_with, trim_start}
use vexcoder.Normaliser.Search.{Found, ahead, find, find_hermes_json_tool_call}
use vexcoder.Normaliser.Json.{Json, Parsed, call, nothing, panicked}
use vexcoder.Normaliser.Loop.{
  Round, stop, again, panic, Outcome, returned, crashed, out_of_fuel, drop_closers, Chunks,
  hermes_close, hermes_round, push_call, function_close, function_round, choose, round, rounds,
  normalise,
}

-- A search parts the text, and what it finds is not empty.
abbrev pub Parts : Text → Option Found → Type 0
Parts s none = Unit
Parts s (some (before, rest)) = (length s ≡ length before + length rest) × (0 < length rest)

ahead-Parts : (c : ℕ) (s : Text) (f : Option Found) → Parts s f → Parts (c ∷ s) (ahead c f)
ahead-Parts c s none h = tt
ahead-Parts c s (some (before, rest)) h = (omega (arith, h.0), h.1)

pub find-Parts : (needle s : Text) → Parts s (find needle s)
unfolding find
find-Parts needle [] = tt
find-Parts needle (c ∷ s) = elim (Bool-cases (starts_with needle (c ∷ s))) [
  | inl here ↦ rw here (omega arith)
  | inr later ↦ rw later (ahead-Parts c s (find needle s) (find-Parts needle s))
]

hermes-Parts : (s : Text) → Parts s (find_hermes_json_tool_call s)
unfolding find_hermes_json_tool_call
hermes-Parts [] = tt
hermes-Parts (c ∷ s) =
    if_both (Parts (c ∷ s))
      (starts_with (codes "<tool_call>") (c ∷ s)
        && starts_with (codes "{") (trim_start (drop 11 (c ∷ s))))
      (some ([], c ∷ s)) (ahead c (find_hermes_json_tool_call s)) (omega arith)
      (ahead-Parts c s (find_hermes_json_tool_call s) (hermes-Parts s))

-- What the loop has before it gets shorter.
abbrev Shrinks : {A : Type 0} → ℕ → Round A → Type 0
Shrinks n (again chunks rest) = length rest < n
Shrinks n (stop chunks rest) = Unit
Shrinks n panic = Unit

length-drop_closers : (fuel : ℕ) (s : Text) → length (drop_closers fuel s) ≤ length s
unfolding drop_closers
length-drop_closers zero s = omega arith
length-drop_closers (suc fuel) s = elim (Bool-cases (starts_with (codes "</tool_call>") s)) [
  | inl more ↦ rw more (omega (arith, length-drop_closers fuel (drop 12 s), length-drop 12 s))
  | inr done ↦ rw done (omega arith)
]

module _ (json : Json) (chunks : Chunks json) (n : ℕ) where
  hermes-Shrinks :
      (remaining : Text) (f : Option Found)
      → length remaining ≤ n
      → Parts remaining f
      → Shrinks n (hermes_close json chunks remaining f)
  hermes-Shrinks remaining none h p = tt
  hermes-Shrinks remaining (some (content, rest)) h p =
      elim (Bool-cases (ltb (length content) 11)) [
        | inl short ↦ rw short tt
        | inr long ↦ rw long (omega (arith, length-drop 12 rest, p.0, p.1))
      ]

  call-Shrinks :
      (raw rest : Text) (r : Parsed json.Value)
      → length rest < n
      → Shrinks n (push_call json chunks raw rest r)
  call-Shrinks raw rest (call name input) h = h
  call-Shrinks raw rest nothing h = h
  call-Shrinks raw rest panicked h = tt

  function-Shrinks :
      (remaining : Text) (f : Option Found)
      → length remaining ≤ n
      → Parts remaining f
      → Shrinks n (function_close json chunks remaining f)
  function-Shrinks remaining none h p = tt
  function-Shrinks remaining (some (front, close)) h p =
      call-Shrinks (front ++ codes "</function>") _ _ (
        omega (
          arith,
          length-drop_closers (length (drop 11 close)) (drop 11 close),
          length-drop 11 close,
          p.0,
          p.1,
        ))

module _ (json : Json) (chunks : Chunks json) (pending : Text) where
  hermes_round-Shrinks :
      (f : Found) → Parts pending (some f) → Shrinks (length pending) (hermes_round json chunks f)
  hermes_round-Shrinks (prefix, remaining) p =
      hermes-Shrinks json _ (length pending) remaining _ (omega (arith, p.0))
        (find-Parts (codes "</tool_call>") remaining)

  function_round-Shrinks :
      (f : Option Found)
      → Parts pending f
      → Shrinks (length pending) (function_round json chunks pending f)
  function_round-Shrinks none p = tt
  function_round-Shrinks (some (prefix, remaining)) p =
      function-Shrinks json _ (length pending) remaining _ (omega (arith, p.0))
        (find-Parts (codes "</function>") remaining)

  choose-Shrinks :
      (f h : Option Found)
      → Parts pending f
      → Parts pending h
      → Shrinks (length pending) (choose json chunks pending f h)
  choose-Shrinks f none p q = function_round-Shrinks f p
  choose-Shrinks none (some h) p q = hermes_round-Shrinks h q
  choose-Shrinks (some f) (some h) p q = elim (Bool-cases (ltb (length h.0) (length f.0))) [
    | inl first ↦ rw first (hermes_round-Shrinks h q)
    | inr later ↦ rw later (function_round-Shrinks (some f) p)
  ]

  round-Shrinks : Shrinks (length pending) (round json chunks pending)
  unfolding round
  round-Shrinks =
      choose-Shrinks (find (codes "<function=") pending) (find_hermes_json_tool_call pending)
        (find-Parts (codes "<function=") pending) (hermes-Parts pending)

abbrev Ended : {A : Type 0} → Outcome A → Type 0
Ended out_of_fuel = ⊥
Ended (returned chunks rest) = Unit
Ended crashed = Unit

rounds-Ended :
    (json : Json) (fuel : ℕ) (chunks : Chunks json) (pending : Text)
    → length pending < fuel
    → Ended (rounds json fuel chunks pending)
unfolding rounds
rounds-Ended json zero chunks pending h = absurd (omega arith)
rounds-Ended json (suc fuel) chunks pending h =
    (elim (round json chunks pending)
        as (λ r.
          Shrinks (length pending) r
          → Ended (elim r [
            | stop more rest ↦ returned more rest
            | again more rest ↦ rounds json fuel more rest
            | panic ↦ crashed
          ])) [
            | stop more rest ↦ λ s. tt
            | again more rest ↦ λ s. rounds-Ended json fuel more rest (omega (arith, s, h))
            | panic ↦ λ s. tt
          ])
      (round-Shrinks json chunks pending)

Ended-ne : {A : Type 0} (o : Outcome A) → Ended o → o ≢ out_of_fuel
Ended-ne o h e = subst Ended e h

-- Whatever is pending and whatever text comes, the loop of a call ends by itself: the fuel, which
-- is one more than the length of the text, never runs out.
pub normalise-ne-out_of_fuel :
    (json : Json) (pending text : Text) → normalise json pending text ≢ out_of_fuel
unfolding normalise
normalise-ne-out_of_fuel json pending [] = Ended-ne _ tt
normalise-ne-out_of_fuel json pending (c ∷ text) = Ended-ne _ (
    rounds-Ended json (suc (length (pending ++ (c ∷ text)))) [] (pending ++ (c ∷ text))
      (omega arith))
