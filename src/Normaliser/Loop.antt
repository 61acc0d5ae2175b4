-- ===== src/Normaliser/Loop.antt =====
-- `StreamTextNormaliser::normalise` and `finish` (src/api/stream/text_normaliser.rs). The state is
-- the pending text. The loop runs on fuel, of which the length of the pending text is enough.
use vexcoder.Prelude.{
  ℕ, zero, suc, true, false, Option, none, some, List, [], ◌∷◌, ◌++◌, drop, length, is_empty, ltb,
  if◌then◌else◌, Text, codes,
}
use vexcoder.Lines.{starts_with, trim}
use vexcoder.Normaliser.Search.{Found, find, find_hermes_json_tool_call}
use vexcoder.Normaliser.Json.{
  Json, Parsed, call, nothing, panicked, parse_single_tagged_tool_call, parse_hermes_json_tool_call,
}
use vexcoder.Normaliser.Tags.{
  strip_tool_call_wrappers, split_incomplete_tool_tag_suffix, strip_incomplete_tool_tag_suffix,
}

pub data NormalisedChunk (A : Type 0) : Type 0 where
  text_chunk : Text → NormalisedChunk A
  tagged_tool_call : Text → A → NormalisedChunk A

-- How a round of the loop ends: with a `break`, with a `continue`, or by a panic
pub data Round (A : Type 0) : Type 0 where
  stop : List (NormalisedChunk A) → Text → Round A
  again : List (NormalisedChunk A) → Text → Round A
  panic : Round A

pub data Outcome (A : Type 0) : Type 0 where
  returned : List (NormalisedChunk A) → Text → Outcome A
  crashed : Outcome A
  out_of_fuel : Outcome A

module _ {A : Type 0} where
  abbrev pub push_text_chunk : List (NormalisedChunk A) → Text → List (NormalisedChunk A)
  push_text_chunk chunks text = if is_empty text then chunks else chunks ++ (text_chunk text ∷ [])

-- `while remaining[next_cursor..].starts_with("</tool_call>")`; the length is enough fuel.
unfoldable pub drop_closers : ℕ → Text → Text
unfolding starts_with
drop_closers zero text = text
drop_closers (suc fuel) text = elim (starts_with (codes "</tool_call>") text) [
  | true ↦ drop_closers fuel (drop 12 text)
  | false ↦ text
]

module _ (json : Json) where
  open json use {Value}

  abbrev pub Chunks : Type 0
  Chunks = List (NormalisedChunk Value)

  abbrev push_hermes : Chunks → Option (Text × Value) → Chunks
  push_hermes chunks none = chunks
  push_hermes chunks (some (name, input)) = chunks ++ (tagged_tool_call name input ∷ [])

  abbrev pub hermes_close : Chunks → Text → Option Found → Round Value
  hermes_close chunks remaining none = stop chunks remaining
  hermes_close chunks remaining (some (content, rest)) =
      if ltb (length content) 11
      then panic
      else again (push_hermes chunks (parse_hermes_json_tool_call json (trim (drop 11 content))))
          (drop 12 rest)

  -- The part for a call as an object of JSON
  abbrev pub hermes_round : Chunks → Found → Round Value
  hermes_round chunks (prefix, remaining) =
      hermes_close (push_text_chunk chunks (strip_tool_call_wrappers prefix)) remaining
        (find (codes "</tool_call>") remaining)

  abbrev pub push_call : Chunks → Text → Text → Parsed Value → Round Value
  push_call chunks raw rest (call name input) =
      again (chunks ++ (tagged_tool_call name input ∷ [])) rest
  push_call chunks raw rest nothing =
      again (push_text_chunk chunks (strip_tool_call_wrappers raw)) rest
  push_call chunks raw rest panicked = panic

  abbrev pub function_close : Chunks → Text → Option Found → Round Value
  function_close chunks remaining none = stop chunks remaining
  function_close chunks remaining (some (front, close)) =
      let raw = front ++ codes "</function>" in
      let behind = drop 11 close in
      push_call chunks raw (drop_closers (length behind) behind)
        (parse_single_tagged_tool_call json raw)

  abbrev pub text_round : Chunks → Text × Text → Round Value
  text_round chunks (prefix, suffix) =
      stop (push_text_chunk chunks (strip_tool_call_wrappers prefix)) suffix

  -- The part for a call in tags, and for text without one
  abbrev pub function_round : Chunks → Text → Option Found → Round Value
  function_round chunks pending none = text_round chunks (split_incomplete_tool_tag_suffix pending)
  function_round chunks pending (some (prefix, remaining)) =
      function_close (push_text_chunk chunks (strip_tool_call_wrappers prefix)) remaining
        (find (codes "</function>") remaining)

  abbrev pub choose : Chunks → Text → Option Found → Option Found → Round Value
  choose chunks pending function_start none = function_round chunks pending function_start
  choose chunks pending none (some hermes) = hermes_round chunks hermes
  choose chunks pending (some function) (some hermes) =
      if ltb (length hermes.0) (length function.0)
      then hermes_round chunks hermes
      else function_round chunks pending (some function)

  unfoldable pub round : Chunks → Text → Round Value
  unfolding find find_hermes_json_tool_call drop_closers parse_single_tagged_tool_call
      parse_hermes_json_tool_call
  round chunks pending =
      choose chunks pending (find (codes "<function=") pending) (find_hermes_json_tool_call pending)

  unfoldable pub rounds : ℕ → Chunks → Text → Outcome Value
  unfolding round
  rounds zero chunks pending = out_of_fuel
  rounds (suc fuel) chunks pending = elim (round chunks pending) [
    | stop more rest ↦ returned more rest
    | again more rest ↦ rounds fuel more rest
    | panic ↦ crashed
  ]

  unfoldable pub normalise : Text → Text → Outcome Value
  unfolding rounds
  normalise pending text =
      if is_empty text
      then returned [] pending
      else let joined = pending ++ text in rounds (suc (length joined)) [] joined

  -- The chunks behind the end of the stream; nothing is pending then.
  unfoldable pub finish : Text → Chunks
  unfolding strip_tool_call_wrappers split_incomplete_tool_tag_suffix
  finish pending =
      push_text_chunk [] (strip_tool_call_wrappers (strip_incomplete_tool_tag_suffix pending))
