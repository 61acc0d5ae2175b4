-- ===== src/Sse/Drain.antt =====
-- The loop over the frames of the buffer (src/api/stream/sse_framing.rs).
use vexcoder.Prelude.{
  ℕ, zero, suc, ◌+◌, ◌≤◌, ◌≡◌, refl, ap, none, some, List, [], ◌∷◌, ◌++◌, append_assoc, arith,
  length, take, drop, inl, inr, Option-cases, length-drop,
}
use vexcoder.Sse.Bytes.{Bytes, find_delimiter}
use vexcoder.Sse.Frame.{Host, Decoder, parse_sse_frame_bytes}
use vexcoder.Sse.Parser.{Drained, drain}
use vexcoder.Sse.Delimiter.{
  Unsplit, find_delimiter-append, find_delimiter-bounds, Unsplit-drop, take-append, drop-append,
}

module _ {D E : Type 0} (host : Host D E) where
  -- A turn leaves a shorter buffer.
  rest-shorter :
      (f : ℕ) (s : Bytes) {pos n : ℕ}
      → find_delimiter s 0 ≡ some (pos, n)
      → length s ≤ suc f
      → length (drop (pos + n) s) ≤ f
  rest-shorter f s {pos} {n} e h =
      omega (arith, find_delimiter-bounds s 0 e, length-drop (pos + n) s, h)

  -- Any fuel that is enough gives the same.
  pub drain-fuel :
      (f g : ℕ) (s : Bytes) (d : Decoder D) (out : List E)
      → length s ≤ f
      → length s ≤ g
      → drain host f s d out ≡ drain host g s d out
  unfolding drain
  drain-fuel zero zero s d out h k = refl
  drain-fuel zero (suc g) [] d out h k = refl
  drain-fuel zero (suc g) (c ∷ s) d out h k = absurd (omega (arith, h))
  drain-fuel (suc f) zero [] d out h k = refl
  drain-fuel (suc f) zero (c ∷ s) d out h k = absurd (omega (arith, k))
  drain-fuel (suc f) (suc g) s d out h k = elim (Option-cases (find_delimiter s 0)) [
    | inl e ↦ rw e
    | inr ((pos, n), e) ↦ elim (Option-cases (parse_sse_frame_bytes host d (take pos s))) [
      | inl p ↦ rw (e, p)
      | inr ((d', more), p) ↦
          rw (e, p)
            (drain-fuel f g (drop (pos + n) s) d' (out ++ more) (rest-shorter f s e h)
              (rest-shorter g s e k))
    ]
  ]

  -- What more bytes make of a buffer that was drained: after an error they are only stored.
  abbrev pub resume : Bytes → Drained host → Drained host
  resume t (s, d, none) = (s ++ t, d, none)
  resume t (s, d, some out) = drain host (length (s ++ t)) (s ++ t) d out

  -- Bytes that come behind a drained buffer are read as if they had been there.
  pub drain-append :
      (f g : ℕ) (s t : Bytes) (d : Decoder D) (out : List E)
      → Unsplit s t
      → length s ≤ f
      → length (s ++ t) ≤ g
      → drain host g (s ++ t) d out ≡ resume t (drain host f s d out)
  unfolding drain
  drain-append zero g s t d out u h k =
      drain-fuel g (length (s ++ t)) (s ++ t) d out k (omega arith)
  drain-append (suc f) zero [] t d out u h k = drain-fuel zero (length t) t d out k (omega arith)
  drain-append (suc f) zero (c ∷ s) t d out u h k = absurd (omega (arith, k))
  drain-append (suc f) (suc g) s t d out u h k = elim (Option-cases (find_delimiter s 0)) [
    | inl e ↦ rw e (drain-fuel (suc g) (length (s ++ t)) (s ++ t) d out k (omega arith))
    | inr ((pos, n), e) ↦
        let bounds = find_delimiter-bounds s 0 e in
        let there = find_delimiter-append s t 0 u e in
        let frame : take pos (s ++ t) ≡ take pos s = take-append pos s t (omega (arith, bounds)) in
        let rest : drop (pos + n) (s ++ t) ≡ drop (pos + n) s ++ t =
          drop-append (pos + n) s t (omega (arith, bounds)) in
        elim (Option-cases (parse_sse_frame_bytes host d (take pos s))) [
          | inl p ↦ rw (e, there, frame, rest, p) refl
          | inr ((d', more), p) ↦
              rw (e, there, frame, rest, p)
                (drain-append f g (drop (pos + n) s) t d' (out ++ more)
                  (Unsplit-drop (pos + n) s t u) (rest-shorter f s e h)
                  (omega
                    (arith, ap (λ (r : Bytes). length r) rest, rest-shorter g (s ++ t) there k)))
        ]
  ]

  abbrev pub prefixed : List E → Drained host → Drained host
  prefixed before (s, d, none) = (s, d, none)
  prefixed before (s, d, some out) = (s, d, some (before ++ out))

  pub drain-prefixed :
      (f : ℕ) (s : Bytes) (d : Decoder D) (before out : List E)
      → drain host f s d (before ++ out) ≡ prefixed before (drain host f s d out)
  unfolding drain
  drain-prefixed zero s d before out = refl
  drain-prefixed (suc f) s d before out = elim (Option-cases (find_delimiter s 0)) [
    | inl e ↦ rw e
    | inr ((pos, n), e) ↦ elim (Option-cases (parse_sse_frame_bytes host d (take pos s))) [
      | inl p ↦ rw (e, p)
      | inr ((d', more), p) ↦
          rw (e, p, append_assoc) (drain-prefixed f (drop (pos + n) s) d' before (out ++ more))
    ]
  ]

  pub drain-shrinks :
      (f : ℕ) (s : Bytes) (d : Decoder D) (out : List E)
      → length (drain host f s d out).0 ≤ length s
  unfolding drain
  drain-shrinks zero s d out = omega arith
  drain-shrinks (suc f) s d out = elim (Option-cases (find_delimiter s 0)) [
    | inl e ↦ rw e (omega arith)
    | inr ((pos, n), e) ↦ elim (Option-cases (parse_sse_frame_bytes host d (take pos s))) [
      | inl p ↦ rw (e, p) (omega (arith, length-drop (pos + n) s))
      | inr ((d', more), p) ↦
          rw (e, p)
            (omega
              (arith, drain-shrinks f (drop (pos + n) s) d' (out ++ more), length-drop (pos + n) s))
    ]
  ]
