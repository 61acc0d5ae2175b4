-- ===== src/Sse/Frame.antt =====
-- The fields of one frame (`parse_sse_frame_bytes` in src/api/stream/sse_framing.rs). UTF-8, the
-- reading of numbers and of JSON, and what the adapter makes of a payload come in as functions.
use vexcoder.Prelude.{
  ℕ, Bool, not, ◌&&◌, ◌||◌, Option, none, some, List, [], ◌∷◌, ◌++◌, map, any, is_empty, ◌==◌,
  if◌then◌else◌, Text, text_eq, codes,
}
use vexcoder.Lines.{starts_with, trim, join_lines}
use vexcoder.Sse.Bytes.{Bytes}

-- What the parser calls: `String::from_utf8`, `parse::<u64>`, the test for JSON, the decoding of a
-- payload that is not empty, and the error envelope by its code. `D` is the state of the adapter,
-- and `E` are its envelopes.
pub record Host (D E : Type 0) : Type 0 where
  pub from_utf8 : Bytes → Option Text
  pub parse_u64 : Text → Option ℕ
  pub is_json : Text → Bool
  pub decode : D → Option Text → Text → D × List E
  pub protocol_stream_error : D → Text → D × E

-- The fields of `StreamParser` that a frame changes
pub record Decoder (D : Type 0) : Type 0 where
  pub last_frame_id : Option Text
  pub reconnect_delay_ms : Option ℕ
  pub adapter : D

abbrev cons_first : ℕ → List Text → List Text
cons_first c [] = (c ∷ []) ∷ []
cons_first c (line ∷ rest) = (c ∷ line) ∷ rest

-- `split('\n')`
unfoldable pub split_lf : Text → List Text
split_lf [] = [] ∷ []
split_lf (c ∷ s) = let rest = split_lf s in if c == b'\n' then [] ∷ rest else cons_first c rest

-- `replace("\r\n", "\n")`
unfoldable pub replace_crlf : Text → Text
replace_crlf [] = []
replace_crlf (c ∷ []) = c ∷ []
replace_crlf (c ∷ d ∷ s) =
    let behind = replace_crlf s in
    let next = replace_crlf (d ∷ s) in if c == b'\r' && d == b'\n' then b'\n' ∷ behind else c ∷ next

abbrev pub cr_to_lf : ℕ → ℕ
cr_to_lf c = if c == b'\r' then b'\n' else c

unfoldable pub normalise_sse_line_endings : Text → Text
unfolding replace_crlf
normalise_sse_line_endings frame = map cr_to_lf (replace_crlf frame)

unfoldable pub strip_prefix : Text → Text → Option Text
strip_prefix [] s = some s
strip_prefix (p ∷ ps) [] = none
strip_prefix (p ∷ ps) (c ∷ s) = if p == c then strip_prefix ps s else none

abbrev pub strip_single_leading_space : Text → Text
strip_single_leading_space [] = []
strip_single_leading_space (c ∷ s) = if c == b' ' then s else c ∷ s

-- The variables of the loop over the lines of a frame
pub record Fields (D : Type 0) : Type 0 where
  pub decoder : Decoder D
  pub frame_kind : Option Text
  pub data_lines : List Text

module _ {D E : Type 0} (host : Host D E) where
  abbrev pub set_delay : Fields D → Option ℕ → Fields D
  set_delay f none = f
  set_delay f (some ms) = record f { decoder = record f.decoder { reconnect_delay_ms = some ms } }

  abbrev pub retry_field : Fields D → Option Text → Fields D
  retry_field f none = f
  retry_field f (some rest) = set_delay f (host.parse_u64 (strip_single_leading_space rest))

  abbrev pub set_id : Fields D → Text → Fields D
  set_id f id = record f { decoder = record f.decoder { last_frame_id = some id } }

  -- By the text behind `event:`, `data:`, `id:` and `retry:`
  abbrev pub field :
      Fields D → Text → Option Text → Option Text → Option Text → Option Text → Fields D
  field f line (some rest) at_data id retry = record f {
    frame_kind = some (strip_single_leading_space rest);
  }
  field f line none (some rest) id retry = record f {
    data_lines = f.data_lines ++ (strip_single_leading_space rest ∷ []);
  }
  field f line none none (some rest) retry =
      let val = strip_single_leading_space rest in if any (λ c. c == 0) val then f else set_id f val
  field f line none none none retry =
      if text_eq line (codes "id") then set_id f [] else retry_field f retry

  unfoldable pub read_line : Fields D → Text → Fields D
  unfolding strip_prefix text_eq starts_with
  read_line f line =
      if is_empty line || starts_with (codes ":") line
      then f
      else field f line (strip_prefix (codes "event:") line) (strip_prefix (codes "data:") line)
          (strip_prefix (codes "id:") line) (strip_prefix (codes "retry:") line)

  unfoldable pub read_lines : Fields D → List Text → Fields D
  unfolding read_line
  read_lines f [] = f
  read_lines f (line ∷ rest) = read_lines (read_line f line) rest

  unfoldable pub looks_like_raw_json_payload : Text → Bool
  looks_like_raw_json_payload text =
      let trimmed = trim text in
      not (is_empty trimmed)
      && (text_eq trimmed (codes "[DONE]")
          || ((starts_with (codes "{") trimmed || starts_with (codes "[") trimmed)
              && host.is_json trimmed))

  unfoldable pub sse_frame_without_data_should_error : Text → Bool
  unfolding split_lf looks_like_raw_json_payload
  sse_frame_without_data_should_error frame =
      any
        (λ line.
          not (is_empty (trim line))
          && (not (starts_with (codes ":") (trim line)) && looks_like_raw_json_payload (trim line)))
        (split_lf frame)

  -- The new state of the adapter and its envelopes
  abbrev pub adapted : Decoder D → D × List E → Decoder D × List E
  adapted d (adapter, envelopes) = (record d { adapter = adapter }, envelopes)

  abbrev pub reported : Decoder D → D × E → Decoder D × List E
  reported d (adapter, envelope) = (record d { adapter = adapter }, envelope ∷ [])

  unfoldable pub decode_frame_payload : Decoder D → Option Text → Text → Decoder D × List E
  decode_frame_payload d frame_kind json_data =
      if is_empty json_data then (d, []) else adapted d (host.decode d.adapter frame_kind json_data)

  abbrev pub finish_frame : Text → Fields D → List Text → Decoder D × List E
  finish_frame frame f [] =
      if sse_frame_without_data_should_error frame
      then reported f.decoder
          (host.protocol_stream_error f.decoder.adapter (codes "sse_parse_error"))
      else (f.decoder, [])
  finish_frame frame f (line ∷ rest) =
      decode_frame_payload f.decoder f.frame_kind (join_lines (line ∷ rest))

  unfoldable pub parse_frame_text : Decoder D → Text → Decoder D × List E
  unfolding read_lines split_lf normalise_sse_line_endings decode_frame_payload
      sse_frame_without_data_should_error
  parse_frame_text d text =
      let frame = normalise_sse_line_endings text in
      let start : Fields D = record { decoder = d; frame_kind = none; data_lines = [] } in
      let f = read_lines start (split_lf frame) in finish_frame frame f f.data_lines

  abbrev pub parse_text : Decoder D → Option Text → Option (Decoder D × List E)
  parse_text d none = none
  parse_text d (some text) = some (parse_frame_text d text)

  -- `none` is an error: the bytes are not UTF-8.
  unfoldable pub parse_sse_frame_bytes : Decoder D → Bytes → Option (Decoder D × List E)
  unfolding parse_frame_text
  parse_sse_frame_bytes d frame_bytes = parse_text d (host.from_utf8 frame_bytes)
