-- ===== src/Sse/Tests.antt =====
-- A parser of ASCII text whose adapter counts the payloads and passes them on.
use vexcoder.Prelude.{
  ℕ, ◌+◌, ◌≡◌, refl, false, none, some, [], ◌∷◌, ◌++◌, arith, saturating_add, Text, codes,
}
use vexcoder.Lines.{join_lines}
use vexcoder.Sse.Frame.{Host, Decoder, parse_frame_text}
use vexcoder.Sse.Parser.{StreamParser, process}
use vexcoder.Sse.Chunks.{followed, process-Followed}
use vexcoder.Sse.Fields.{write_frame, parse_frame_text-write_frame}

abbrev host : Host ℕ Text
host = record {
  from_utf8 = λ bytes. some bytes;
  parse_u64 = λ text. none;
  is_json = λ text. false;
  decode = λ n frame_kind payload. (n + 1, payload ∷ []);
  protocol_stream_error = λ n code. (n, code);
}

abbrev fresh : Decoder ℕ
fresh = record { last_frame_id = none; reconnect_delay_ms = none; adapter = 0 }

abbrev parser : StreamParser ℕ
parser = record { buffer = []; bom_checked = false; overflowed = false; decoder = fresh }

-- One frame and the first bytes of the next one, with a mark in front
abbrev first_chunk : Text
first_chunk = 0xEF ∷ 0xBB ∷ 0xBF ∷ codes "data: a\r\n\r\ndata: b"

abbrev second_chunk : Text
second_chunk = codes "c\n\nid: 7\n"

two_frames :
    (process host parser (first_chunk ++ second_chunk)).1 ≡ some (codes "a" ∷ codes "bc" ∷ [])
unfolding process saturating_add join_lines
two_frames = refl

process-Followed_example :
    process host parser (first_chunk ++ second_chunk)
    ≡ followed host (process host parser first_chunk) second_chunk
process-Followed_example =
    process-Followed host parser first_chunk second_chunk refl (omega arith) refl

write_frame_example :
    parse_frame_text host fresh (write_frame (codes "delta") (codes "x" ∷ codes "y" ∷ []))
    ≡ (record fresh { adapter = 1 }, codes "x\ny" ∷ [])
unfolding join_lines
write_frame_example =
    parse_frame_text-write_frame host fresh (codes "delta") (codes "x") (codes "y" ∷ [])
      (refl, (refl, (refl, (refl, (refl, tt))))) ((refl, tt), ((refl, tt), tt))
