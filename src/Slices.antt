-- ===== src/Slices.antt =====
-- Lengths of slices and of edited texts.
use vexcoder.Prelude.{
  ℕ, ◌+◌, ◌-◌, ◌≤◌, ◌≡◌, inl, inr, some, [], ◌∷◌, ◌++◌, arith, leb, ltb, leb→le, ◌==◌, Bool-cases,
  Option-cases, Text, len_utf8, byte_len, byte_len-append,
}
use vexcoder.Prelude.Options.{Ensures}
use vexcoder.Prelude.Strings.{slice_to, slice_from, insert_str_at, replace_range_of}

pub byte_len-slice_to : (s : Text) (i : ℕ) {p : Text} → slice_to s i ≡ some p → byte_len p ≡ i
unfolding slice_to byte_len
byte_len-slice_to [] i h = ground arith
byte_len-slice_to (c ∷ s) i h = elim (Bool-cases (i == 0)) [
  | inl z ↦ ground arith
  | inr nz ↦ elim (Bool-cases (ltb i (len_utf8 c))) [
    | inl inside ↦ ground arith
    | inr past ↦ elim (Option-cases (slice_to s (i - len_utf8 c))) [
      | inl e ↦ ground arith
      | inr (q, e) ↦ ground (arith, byte_len-slice_to s (i - len_utf8 c) e)
    ]
  ]
]

pub byte_len-slice_from :
    (s : Text) (i : ℕ) {q : Text} → slice_from s i ≡ some q → i + byte_len q ≡ byte_len s
unfolding slice_from byte_len
byte_len-slice_from [] i h = ground arith
byte_len-slice_from (c ∷ s) i {q} h = ground (arith, byte_len-slice_from s (i - len_utf8 c) {q = q})

-- An insertion adds the value's length, and a cut adds nothing.
pub insert_str_at-Ensures :
    (s value : Text) (i : ℕ)
    → Ensures (λ t. byte_len t ≡ byte_len s + byte_len value) (insert_str_at s i value)
unfolding insert_str_at
insert_str_at-Ensures s value i = elim (Option-cases (slice_to s i)) [
  | inl e ↦ rw e tt
  | inr (p, e) ↦ elim (Option-cases (slice_from s i)) [
    | inl f ↦ rw (e, f) tt
    | inr (q, f) ↦
        rw (e, f)
          (omega (
            arith,
            byte_len-slice_to s i e,
            byte_len-slice_from s i f,
            byte_len-append p (value ++ q),
            byte_len-append value q,
          ))
  ]
]

pub cut-Ensures :
    (s : Text) (start end : ℕ)
    → Ensures (λ t. byte_len t ≤ byte_len s) (replace_range_of s start end [])
unfolding replace_range_of
cut-Ensures s start end = elim (Bool-cases (leb start end)) [
  | inr back ↦ rw back tt
  | inl forth ↦ elim (Option-cases (slice_to s start)) [
    | inl e ↦ rw (forth, e) tt
    | inr (p, e) ↦ elim (Option-cases (slice_from s end)) [
      | inl f ↦ rw (forth, e, f) tt
      | inr (q, f) ↦
          rw (forth, e, f)
            (omega (
              arith,
              leb→le start end forth,
              byte_len-slice_to s start e,
              byte_len-slice_from s end f,
              byte_len-append p q,
            ))
    ]
  ]
]
