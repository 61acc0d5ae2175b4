-- ===== src/Sse/Parser.antt =====
-- `StreamParser::process` (src/api/stream/sse_framing.rs).
use vexcoder.Prelude.{
  ℕ, zero, suc, ◌+◌, Bool, true, Option, none, some, List, [], ◌++◌, ltb, length, take, drop,
  if◌then◌else◌, codes, saturating_add,
}
use vexcoder.Sse.Bytes.{Bytes, find_delimiter, strip_utf8_bom_once, max_sse_buffer_bytes}
use vexcoder.Sse.Frame.{Host, Decoder, parse_sse_frame_bytes, reported}

pub record StreamParser (D : Type 0) : Type 0 where
  pub buffer : Bytes
  pub bom_checked : Bool
  pub overflowed : Bool
  pub decoder : Decoder D

module _ {D E : Type 0} (host : Host D E) where
  -- What the loop leaves: the buffer, the decoder, and the envelopes (`none` is an error).
  abbrev pub Drained : Type 0
  Drained = Bytes × Decoder D × Option (List E)

  -- The frame is parsed, and the loop goes on unless that fails.
  abbrev pub parsed :
      Option (Decoder D × List E)
      → Bytes
      → Decoder D
      → List E
      → (Bytes → Decoder D → List E → Drained)
      → Drained
  parsed none rest d frames on = (rest, d, none)
  parsed (some (d', more)) rest d frames on = on rest d' (frames ++ more)

  abbrev pub at_delimiter :
      Option (ℕ × ℕ) → Bytes → Decoder D → List E → (Bytes → Decoder D → List E → Drained) → Drained
  at_delimiter none buffer d frames on = (buffer, d, some frames)
  at_delimiter (some (pos, delim_len)) buffer d frames on =
      parsed (parse_sse_frame_bytes host d (take pos buffer)) (drop (pos + delim_len) buffer) d
        frames on

  -- `while let Some((pos, delim_len)) = self.find_sse_frame_delimiter()`, by fuel: each turn takes
  -- bytes off the buffer, so that its length is enough.
  unfoldable pub drain : ℕ → Bytes → Decoder D → List E → Drained
  unfolding find_delimiter parse_sse_frame_bytes
  drain zero buffer d frames = (buffer, d, some frames)
  drain (suc fuel) buffer d frames =
      at_delimiter (find_delimiter buffer 0) buffer d frames (drain fuel)

  abbrev pub overflow : StreamParser D → Decoder D × List E → StreamParser D × Option (List E)
  overflow p (d, frames) = (record p { decoder = d }, some frames)

  abbrev pub drained : StreamParser D → Bool → Drained → StreamParser D × Option (List E)
  drained p checked (buffer, d, result) =
      (record p { buffer = buffer; bom_checked = checked; decoder = d }, result)

  -- On the buffer with the chunk at its end
  abbrev pub read_buffer : StreamParser D → Bool × Bytes → StreamParser D × Option (List E)
  read_buffer p (checked, buffer) = drained p checked (drain (length buffer) buffer p.decoder [])

  unfoldable pub process : StreamParser D → Bytes → StreamParser D × Option (List E)
  unfolding drain strip_utf8_bom_once
  process p chunk =
      let report =
        reported host p.decoder
          (host.protocol_stream_error p.decoder.adapter (codes "sse_buffer_overflow")) in
      if p.overflowed
      then overflow p report
      else if ltb max_sse_buffer_bytes (saturating_add (length p.buffer) (length chunk))
      then overflow (record p { overflowed = true }) report
      else read_buffer p (strip_utf8_bom_once p.bom_checked (p.buffer ++ chunk))
