-- ===== src/Sse/Chunks.antt =====
-- Where a chunk of the stream ends does not matter (src/api/stream/sse_framing.rs).
use vexcoder.Prelude.{
  ℕ, zero, suc, ◌+◌, ◌≤◌, ◌≡◌, refl, sym, ap, ◌∙◌, Bool, true, false, Option, none, some, List, [],
  ◌++◌, append_assoc, append-nil, arith, length, inl, inr, Bool-cases, length-append, ltb,
  saturating_add, subst,
}
use mathlib.Core.Path.{ap₂}
use vexcoder.Sse.Bytes.{Bytes, find_delimiter, strip_utf8_bom_once, max_sse_buffer_bytes}
use vexcoder.Sse.Frame.{Host, Decoder}
use vexcoder.Sse.Parser.{StreamParser, Drained, drain, drained, read_buffer, process}
use vexcoder.Sse.Delimiter.{
  Unsplit, strip_utf8_bom_once-append, strip_utf8_bom_once-waits, strip_utf8_bom_once-Unsplit,
  strip_utf8_bom_once-length,
}
use vexcoder.Sse.Drain.{resume, drain-append, prefixed, drain-prefixed, drain-shrinks}

module _ {D E : Type 0} (host : Host D E) where
  -- The envelopes of an earlier chunk stand before those of a later one.
  abbrev pub ahead : List E → StreamParser D × Option (List E) → StreamParser D × Option (List E)
  ahead before (p, none) = (p, none)
  ahead before (p, some out) = (p, some (before ++ out))

  -- What the next chunk makes of the parser and the envelopes: after an error it is only stored.
  abbrev pub followed : StreamParser D × Option (List E) → Bytes → StreamParser D × Option (List E)
  followed (p, none) chunk = (record p { buffer = p.buffer ++ chunk }, none)
  followed (p, some before) chunk = ahead before (process host p chunk)

  ahead-nil : (r : StreamParser D × Option (List E)) → ahead [] r ≡ r
  ahead-nil (p, none) = refl
  ahead-nil (p, some out) = refl

  -- The state within the size bound
  process-small :
      (p : StreamParser D) (chunk : Bytes)
      → p.overflowed ≡ false
      → length p.buffer + length chunk ≤ max_sse_buffer_bytes
      → process host p chunk
        ≡ read_buffer host p (strip_utf8_bom_once p.bom_checked (p.buffer ++ chunk))
  unfolding process saturating_add
  process-small p chunk o h =
      let small : ltb max_sse_buffer_bytes (saturating_add (length p.buffer) (length chunk))
          ≡ false =
        ground arith in
      rw (o, small) refl

  drained-prefixed :
      (p : StreamParser D) (before : List E) (r : Drained host)
      → drained host p true (prefixed host before r) ≡ ahead before (drained host p true r)
  drained-prefixed p before (s, d, none) = refl
  drained-prefixed p before (s, d, some out) = refl

  -- The mark was looked for and the buffer behind it drained; then the next chunk is read.
  checked-Followed :
      (p : StreamParser D) (b : Bytes) (r : Drained host)
      → p.overflowed ≡ false
      → length r.0 + length b ≤ max_sse_buffer_bytes
      → drained host p true (resume host b r) ≡ followed (drained host p true r) b
  unfolding strip_utf8_bom_once
  checked-Followed p b (rest, d, none) o h = refl
  checked-Followed p b (rest, d, some out) o h =
      let q : StreamParser D = record p { buffer = rest; bom_checked = true; decoder = d } in
      let all = rest ++ b in
      let before = drain-prefixed host (length all) all d out [] in
      let same = ap (drain host (length all) all d) (sym (append-nil out)) in
      ap (drained host p true) (same ∙ before)
      ∙ drained-prefixed p out (drain host (length all) all d [])
      ∙ sym (ap (ahead out) (process-small q b o h))

  drain-none :
      (f : ℕ) (s : Bytes) (d : Decoder D) (out : List E)
      → find_delimiter s 0 ≡ none
      → drain host f s d out ≡ (s, d, some out)
  unfolding drain
  drain-none zero s d out e = refl
  drain-none (suc f) s d out e = rw e

  unchecked :
      (checked : Bool) (s : Bytes) → (strip_utf8_bom_once checked s).0 ≡ false → checked ≡ false
  unfolding strip_utf8_bom_once
  unchecked true s h = cc
  unchecked false s h = refl

  -- The buffer is the beginning of a mark: nothing is drained, and the mark is looked for again.
  waiting-Followed :
      (p : StreamParser D) (s b : Bytes)
      → p.overflowed ≡ false
      → length s + length b ≤ max_sse_buffer_bytes
      → p.bom_checked ≡ false
      → (strip_utf8_bom_once false s).0 ≡ false
      → read_buffer host p (strip_utf8_bom_once false (s ++ b))
        ≡ followed (read_buffer host p (strip_utf8_bom_once false s)) b
  waiting-Followed p s b o h c waits =
      let (same, quiet) = strip_utf8_bom_once-waits s waits in
      let st = strip_utf8_bom_once false s in
      let here : st ≡ (false, s) = λ i. (waits i, same i) in
      let q : StreamParser D = record p { buffer = s; bom_checked = false } in
      let first : read_buffer host p st ≡ (q, some []) =
        ap (read_buffer host p) here
        ∙ ap (drained host p false) (drain-none (length s) s p.decoder [] quiet) in
      sym (ap (λ w. followed w b) first ∙ ahead-nil (process host q b) ∙ process-small q b o h)

  -- A parser that has not overflowed, and whose buffer has room for two chunks, gives for both
  -- at once what it gives for one behind the other, state and envelopes, provided that the
  -- first one does not end between a carriage return and its line feed; behind an error in the
  -- first chunk, the second one is only stored. So a chunk may end within a frame, a character
  -- or the byte order mark.
  pub process-Followed :
      (p : StreamParser D) (a b : Bytes)
      → p.overflowed ≡ false
      → length p.buffer + length a + length b ≤ max_sse_buffer_bytes
      → Unsplit (p.buffer ++ a) b
      → process host p (a ++ b) ≡ followed (process host p a) b
  process-Followed p a b o h u =
      let s = p.buffer ++ a in
      let st = strip_utf8_bom_once p.bom_checked s in
      let joined : p.buffer ++ (a ++ b) ≡ s ++ b = sym (append_assoc p.buffer a b) in
      let whole = process-small p (a ++ b) o (omega (arith, h, length-append a b)) in
      let first = process-small p a o (omega (arith, h)) in
      elim (Bool-cases st.0) [
        | inl checked ↦
            let behind = strip_utf8_bom_once-append p.bom_checked s b checked in
            let r = drain host (length st.1) st.1 p.decoder [] in
            let here : st ≡ (true, st.1) = ap (λ (c : Bool). (c, st.1)) checked in
            let more =
              drain-append host (length st.1) (length (st.1 ++ b)) st.1 b p.decoder []
                (strip_utf8_bom_once-Unsplit p.bom_checked s b u) (omega arith) (omega arith) in
            let fits : length r.0 + length b ≤ max_sse_buffer_bytes = omega (
              arith,
              h,
              length-append p.buffer a,
              drain-shrinks host (length st.1) st.1 p.decoder [],
              strip_utf8_bom_once-length p.bom_checked s,
            ) in
            whole
            ∙ ap (read_buffer host p) (ap (strip_utf8_bom_once p.bom_checked) joined ∙ behind)
            ∙ ap (drained host p true) more
            ∙ checked-Followed p b r o fits
            ∙ sym (ap (λ w. followed w b) (first ∙ ap (read_buffer host p) here))
        | inr waits ↦
            let c = unchecked p.bom_checked s waits in
            let none_yet : (strip_utf8_bom_once false s).0 ≡ false =
              subst (λ (t : Bool). (strip_utf8_bom_once t s).0 ≡ false) c waits in
            let fits : length s + length b ≤ max_sse_buffer_bytes =
              omega (arith, h, length-append p.buffer a) in
            whole
            ∙ ap (read_buffer host p) (ap₂ strip_utf8_bom_once c joined)
            ∙ waiting-Followed p s b o fits c none_yet
            ∙ sym (
                ap (λ w. followed w b)
                  (first ∙ ap (λ (t : Bool). read_buffer host p (strip_utf8_bom_once t s)) c))
      ]
