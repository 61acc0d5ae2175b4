-- ===== src/Editor/Boundary.antt =====
-- The searches for a character boundary in a buffer (src/ui/editor/mod.rs, src/ui/input_metrics.rs).
use vexcoder.Prelude.{
  ℕ, zero, suc, ◌+◌, ◌-◌, ◌≤◌, ◌<◌, min, true, ◌≡◌, inl, inr, Option, some, [], ◌∷◌, ◌++◌, arith,
  leb, ◌==◌, if◌then◌else◌, Bool-cases, Text, len_utf8, byte_len,
}
use vexcoder.Prelude.Options.{◌>>=◌, Returns}
use vexcoder.Prelude.Strings.{
  is_char_boundary, is_char_boundary-zero, is_char_boundary-byte_len, is_char_boundary-SplitsAt,
  is_char_boundary-step, is_char_boundary-le, slice_from, SplitsAt,
}

-- `while idx > 0 && !buffer.is_char_boundary(idx) { idx -= 1; }`
unfoldable pub floor_boundary : Text → ℕ → ℕ
floor_boundary s zero = 0
floor_boundary s (suc i) =
    let lower = floor_boundary s i in if is_char_boundary s (suc i) then suc i else lower

unfoldable pub clamp_cursor_to_boundary_left : Text → ℕ → ℕ
clamp_cursor_to_boundary_left buffer idx = floor_boundary buffer (min idx (byte_len buffer))

unfoldable pub prev_char_boundary : Text → ℕ → ℕ
prev_char_boundary buffer idx =
    let normalized = floor_boundary buffer (min idx (byte_len buffer)) in
    if normalized == 0 then 0 else floor_boundary buffer (normalized - 1)

-- `Some(ch) => i + ch.len_utf8(), None => buffer.len()`
unfoldable pub after_first : Text → ℕ → Text → ℕ
after_first buffer i [] = byte_len buffer
after_first buffer i (ch ∷ _) = i + len_utf8 ch

unfoldable pub next_char_boundary : Text → ℕ → Option ℕ
unfolding after_first
next_char_boundary buffer idx =
    let i = clamp_cursor_to_boundary_left buffer idx in
    if leb (byte_len buffer) i
    then some (byte_len buffer)
    else (do rest ← slice_from buffer i; some (after_first buffer i rest))

pub floor_boundary-boundary : (s : Text) (i : ℕ) → is_char_boundary s (floor_boundary s i) ≡ true
unfolding floor_boundary
floor_boundary-boundary s zero = is_char_boundary-zero s
floor_boundary-boundary s (suc i) = ground (arith, floor_boundary-boundary s i)

pub floor_boundary-le : (s : Text) (i : ℕ) → floor_boundary s i ≤ i
unfolding floor_boundary
floor_boundary-le s zero = omega arith
floor_boundary-le s (suc i) = ground (arith, floor_boundary-le s i)

-- Nothing between the result and the start is a boundary.
pub floor_boundary-greatest :
    (s : Text) (i j : ℕ) → j ≤ i → is_char_boundary s j ≡ true → j ≤ floor_boundary s i
unfolding floor_boundary
floor_boundary-greatest s zero j h b = omega arith
floor_boundary-greatest s (suc i) j h b = elim (Bool-cases (is_char_boundary s (suc i))) [
  | inl here ↦ rw here h
  | inr away ↦ rw away (floor_boundary-greatest s i j (ground arith) b)
]

module _ (s : Text) (i : ℕ) where
  pub clamp-boundary : is_char_boundary s (clamp_cursor_to_boundary_left s i) ≡ true
  unfolding clamp_cursor_to_boundary_left
  clamp-boundary = floor_boundary-boundary s (min i (byte_len s))

  pub clamp-le : clamp_cursor_to_boundary_left s i ≤ byte_len s
  clamp-le = is_char_boundary-le s _ clamp-boundary

  -- A cursor on a boundary stays where it is.
  pub clamp_id : is_char_boundary s i ≡ true → clamp_cursor_to_boundary_left s i ≡ i
  unfolding clamp_cursor_to_boundary_left
  clamp_id b = omega (
    arith,
    is_char_boundary-le s i b,
    floor_boundary-le s (min i (byte_len s)),
    floor_boundary-greatest s (min i (byte_len s)) i (omega (arith, is_char_boundary-le s i b)) b,
  )

  pub clamp-ge :
      (j : ℕ) → is_char_boundary s j ≡ true → j ≤ i → j ≤ clamp_cursor_to_boundary_left s i
  unfolding clamp_cursor_to_boundary_left
  clamp-ge j b h =
      floor_boundary-greatest s (min i (byte_len s)) j (omega (arith, is_char_boundary-le s j b)) b

  pub prev_char_boundary-le : prev_char_boundary s i ≤ i
  unfolding prev_char_boundary
  prev_char_boundary-le =
      let normalized = floor_boundary s (min i (byte_len s)) in
      ground (arith, floor_boundary-le s (min i (byte_len s)), floor_boundary-le s (normalized - 1))

  pub prev_char_boundary-boundary : is_char_boundary s (prev_char_boundary s i) ≡ true
  unfolding prev_char_boundary
  prev_char_boundary-boundary =
      let normalized = floor_boundary s (min i (byte_len s)) in
      ground (arith, is_char_boundary-zero s, floor_boundary-boundary s (normalized - 1))

  -- From a boundary past the start, the cursor goes to the greatest boundary before it.
  pub prev_char_boundary_greatest :
      (j : ℕ)
      → is_char_boundary s i ≡ true
      → j < i
      → is_char_boundary s j ≡ true
      → (j ≤ prev_char_boundary s i) × (prev_char_boundary s i < i)
  unfolding prev_char_boundary clamp_cursor_to_boundary_left
  prev_char_boundary_greatest j b lt c = ground (
    arith,
    is_char_boundary-le s i b,
    clamp_id b,
    floor_boundary-le s (i - 1),
    floor_boundary-greatest s (i - 1) j (omega arith) c,
  )

  -- The right neighbour exists, is a boundary, and lies past the clamped cursor unless that is
  -- at the end.
  pub next_char_boundary-Returns :
      Returns
        (λ j. (is_char_boundary s j ≡ true) × (clamp_cursor_to_boundary_left s i ≤ j))
        (next_char_boundary s i)
  unfolding next_char_boundary
  next_char_boundary-Returns = elim (Bool-cases (leb (byte_len s) k)) [
    | inl end ↦ rw end (is_char_boundary-byte_len s, clamp-le)
    | inr inside ↦ rw (inside, p.tail_slice) (after p.back p.joins)
  ]
    where
      k : ℕ
      k = clamp_cursor_to_boundary_left s i

      p : SplitsAt s k
      p = is_char_boundary-SplitsAt s k clamp-boundary

      after :
          (back : Text)
          → s ≡ p.front ++ back
          → (is_char_boundary s (after_first s k back) ≡ true) × (k ≤ after_first s k back)
      after [] e = (is_char_boundary-byte_len s, clamp-le)
      after (c ∷ back) e = (is_char_boundary-step p c back e, omega arith)
