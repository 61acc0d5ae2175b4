-- ===== src/Normaliser/Calls.antt =====
-- A call in tags that stands in plain text: the rounds that take it out
-- (src/api/stream/text_normaliser.rs).
use vexcoder.Prelude.{
  ◌≡◌, refl, ap, ◌∙◌, ℕ, zero, suc, ◌<◌, false, some, [], ◌∷◌, ◌++◌, arith, length, append-nil,
  is_empty, Text, codes,
}
use vexcoder.Lines.{starts_with}
use vexcoder.Normaliser.Search.{find}
use vexcoder.Normaliser.Json.{Json, parse_single_tagged_tool_call}
use vexcoder.Normaliser.Tags.{strip_tool_call_wrappers}
use vexcoder.Normaliser.Loop.{
  again, stop, panic, returned, crashed, Chunks, push_text_chunk, push_call, drop_closers,
  function_close, round, rounds, normalise,
}
use vexcoder.Normaliser.Finds.{
  Without, past, past-some, find-absent, hermes-absent, strip-absent, split-absent,
}
use vexcoder.Normaliser.Panics.{round-function}

abbrev pub closing : Text
closing = codes "</function>"

-- The search for the closing tag passes the text.
abbrev pub Passed : Text → Type 0
Passed inner = (s : Text) → find closing (inner ++ s) ≡ past inner (find closing s)

abbrev pub in_text : Text → Text → Text → Text
in_text prefix inner suffix = prefix ++ (codes "<function=" ++ (inner ++ (closing ++ suffix)))

find-closing :
    (inner suffix : Text)
    → Passed inner
    → find closing (codes "<function=" ++ (inner ++ (closing ++ suffix)))
      ≡ some (codes "<function=" ++ inner, closing ++ suffix)
unfolding find starts_with
find-closing inner suffix h =
    let at : find closing (inner ++ (closing ++ suffix)) ≡ some (inner ++ [], closing ++ suffix) =
      h (closing ++ suffix) ∙ past-some inner [] (closing ++ suffix) in
    ap (past (codes "<function=")) (at ∙ ap (λ l. some (l, closing ++ suffix)) (append-nil inner))

drop_closers-absent : (n : ℕ) (s : Text) → Without b'<' s → drop_closers n s ≡ s
unfolding drop_closers starts_with
drop_closers-absent zero s h = refl
drop_closers-absent (suc n) [] h = refl
drop_closers-absent (suc n) (c ∷ s) h = rw (h.0, drop_closers) refl

module _ (json : Json) where
  -- The round of a call goes by what its reading gives.
  pub round-call :
      (prefix inner suffix : Text)
      → Without b'<' prefix
      → Passed inner
      → Without b'<' suffix
      → round json [] (in_text prefix inner suffix)
        ≡ push_call json
            (push_text_chunk [] prefix)
            (codes "<function=" ++ (inner ++ closing))
            suffix
            (parse_single_tagged_tool_call json (codes "<function=" ++ (inner ++ closing)))
  round-call prefix inner suffix hp hi hs =
      round-function json [] prefix (inner ++ (closing ++ suffix)) hp
      ∙ (ap
            (function_close json (push_text_chunk [] (strip_tool_call_wrappers prefix))
              (codes "<function=" ++ (inner ++ (closing ++ suffix))))
            (find-closing inner suffix hi)
          ∙ (ap
                (λ rest.
                  push_call json (push_text_chunk [] (strip_tool_call_wrappers prefix))
                    (codes "<function=" ++ (inner ++ closing)) rest
                    (parse_single_tagged_tool_call json (codes "<function=" ++ (inner ++ closing))))
                (drop_closers-absent (length suffix) suffix hs)
              ∙ ap
                  (λ p.
                    push_call json (push_text_chunk [] p) (codes "<function=" ++ (inner ++ closing))
                      suffix
                      (parse_single_tagged_tool_call json
                        (codes "<function=" ++ (inner ++ closing))))
                  (strip-absent prefix hp)))

  -- Text without a tag ends the loop.
  round-plain :
      (chunks : Chunks json) (s : Text)
      → Without b'<' s
      → round json chunks s ≡ stop (push_text_chunk chunks s) []
  unfolding round
  round-plain chunks s h =
      rw (find-absent b'<' (codes "function=") s h)
        (rw (hermes-absent s h) (rw (split-absent s h) (rw (strip-absent s h) refl)))

  rounds-panic :
      (n : ℕ) (chunks : Chunks json) (pending : Text)
      → round json chunks pending ≡ panic
      → rounds json (suc n) chunks pending ≡ crashed
  unfolding rounds
  rounds-panic n chunks pending e = rw (e, rounds) refl

  rounds-again :
      (n : ℕ) (chunks more : Chunks json) (pending rest : Text)
      → round json chunks pending ≡ again more rest
      → Without b'<' rest
      → 0 < n
      → rounds json (suc n) chunks pending ≡ returned (push_text_chunk more rest) []
  unfolding rounds
  rounds-again zero chunks more pending rest e h p = absurd (omega (arith, p))
  rounds-again (suc n) chunks more pending rest e h p =
      rw (e, rounds) (rw (round-plain more rest h, rounds) refl)

  in_text-filled : (prefix inner suffix : Text) → is_empty (in_text prefix inner suffix) ≡ false
  in_text-filled [] inner suffix = refl
  in_text-filled (c ∷ prefix) inner suffix = refl

  in_text-long : (prefix inner suffix : Text) → 0 < length (in_text prefix inner suffix)
  in_text-long [] inner suffix = omega arith
  in_text-long (c ∷ prefix) inner suffix = omega arith

  -- A stream whose one piece is the text
  pub normalise-panic :
      (prefix inner suffix : Text)
      → round json [] (in_text prefix inner suffix) ≡ panic
      → normalise json [] (in_text prefix inner suffix) ≡ crashed
  unfolding normalise
  normalise-panic prefix inner suffix e =
      rw (in_text-filled prefix inner suffix)
        (rounds-panic (length (in_text prefix inner suffix)) [] (in_text prefix inner suffix) e)

  pub normalise-again :
      (prefix inner suffix : Text) (more : Chunks json)
      → round json [] (in_text prefix inner suffix) ≡ again more suffix
      → Without b'<' suffix
      → normalise json [] (in_text prefix inner suffix) ≡ returned (push_text_chunk more suffix) []
  unfolding normalise
  normalise-again prefix inner suffix more e h = rw (in_text-filled prefix inner suffix) (
      rounds-again (length (in_text prefix inner suffix)) [] more (in_text prefix inner suffix)
        suffix e h (in_text-long prefix inner suffix))
