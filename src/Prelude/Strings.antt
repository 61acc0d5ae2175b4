-- ===== src/Prelude/Strings.antt =====
-- `str` indexed by byte offsets. A slice or an edit off a character boundary panics in Rust,
-- and is `none` here.
use Prim.Native.Nat.{ℕ, ◌+◌, ◌-◌, ◌≤◌}
use mathlib.Core.Bool.{Bool, true, false}
use mathlib.Core.List.{[], ◌∷◌, ◌++◌, append-nil, append_assoc}
use mathlib.Core.Logic.{inl, inr}
use mathlib.Core.Option
use mathlib.Core.Option.{Option, none, some}
use mathlib.Core.Path.{◌≡◌, refl, sym, ap, ◌∙◌}
use native.Mathlib.Omega.{arith}
use vexcoder.Prelude.Chars.{Text, len_utf8, len_utf8_pos, byte_len, byte_len-append}
use vexcoder.Prelude.Options.{◌>>=◌, ◌>>◌, guard}
use vexcoder.Prelude.Tests.{ltb, leb, ltb→le, ◌==◌, if◌then◌else◌, Bool-cases}

-- `str::is_char_boundary`
unfoldable pub is_char_boundary : Text → ℕ → Bool
is_char_boundary [] i = i == 0
is_char_boundary (c ∷ s) i =
    if i == 0
    then true
    else if ltb i (len_utf8 c)
    then false
    else is_char_boundary s (i - len_utf8 c)

-- `&s[i..]`
unfoldable pub slice_from : Text → ℕ → Option Text
slice_from [] i = if i == 0 then some [] else none
slice_from (c ∷ s) i =
    if i == 0
    then some (c ∷ s)
    else if ltb i (len_utf8 c)
    then none
    else slice_from s (i - len_utf8 c)

-- `&s[..i]`
unfoldable pub slice_to : Text → ℕ → Option Text
slice_to [] i = if i == 0 then some [] else none
slice_to (c ∷ s) i =
    if i == 0
    then some []
    else if ltb i (len_utf8 c)
    then none
    else Option.map (◌∷◌ c) (slice_to s (i - len_utf8 c))

-- `String::insert_str`
unfoldable pub insert_str_at : Text → ℕ → Text → Option Text
insert_str_at s i value = do
  front ← slice_to s i
  back ← slice_from s i
  some (front ++ (value ++ back))

-- `String::replace_range(start..end, value)`
unfoldable pub replace_range_of : Text → ℕ → ℕ → Text → Option Text
replace_range_of s start end value = do
  guard (leb start end)
  front ← slice_to s start
  back ← slice_from s end
  some (front ++ (value ++ back))

-- The text parts at byte offset `i`.
pub record SplitsAt (s : Text) (i : ℕ) : Type 0 where
  pub front : Text
  pub back : Text
  pub joins : s ≡ front ++ back
  pub offset : byte_len front ≡ i
  pub head_slice : slice_to s i ≡ some front
  pub tail_slice : slice_from s i ≡ some back

module _ (s : Text) (i : ℕ) where
  SplitsAt-here : i ≡ 0 → SplitsAt s i
  unfolding slice_to slice_from byte_len
  SplitsAt-here e = record {
    front = [];
    back = s;
    joins = refl;
    offset = omega arith;
    head_slice = rw e (to_zero s);
    tail_slice = rw e (from_zero s);
  }
    where
      to_zero : (t : Text) → slice_to t 0 ≡ some []
      to_zero [] = refl
      to_zero (c ∷ t) = refl

      from_zero : (t : Text) → slice_from t 0 ≡ some t
      from_zero [] = refl
      from_zero (c ∷ t) = refl

SplitsAt-cons :
    (c : ℕ) {s : Text} (i : ℕ)
    → ltb i (len_utf8 c) ≡ false
    → SplitsAt s (i - len_utf8 c)
    → SplitsAt (c ∷ s) i
unfolding slice_to slice_from byte_len
SplitsAt-cons c i far p = record {
  front = c ∷ p.front;
  back = p.back;
  joins = ap (◌∷◌ c) p.joins;
  offset = omega (arith, ltb→le i (len_utf8 c) far, p.offset);
  head_slice = ground (arith, len_utf8_pos c, p.head_slice);
  tail_slice = ground (arith, len_utf8_pos c, p.tail_slice);
}

-- Every character boundary splits the text, and both slices succeed.
pub is_char_boundary-SplitsAt : (s : Text) (i : ℕ) → is_char_boundary s i ≡ true → SplitsAt s i
unfolding is_char_boundary
is_char_boundary-SplitsAt [] i h = SplitsAt-here [] i (ground arith)
is_char_boundary-SplitsAt (c ∷ s) i h = elim (Bool-cases (i == 0)) [
  | inl z ↦ SplitsAt-here (c ∷ s) i (ground arith)
  | inr nz ↦
      SplitsAt-cons c i (ground arith) (is_char_boundary-SplitsAt s (i - len_utf8 c) (ground arith))
]

pub is_char_boundary-zero : (s : Text) → is_char_boundary s 0 ≡ true
unfolding is_char_boundary
is_char_boundary-zero [] = refl
is_char_boundary-zero (c ∷ s) = refl

pub is_char_boundary-append : (s t : Text) → is_char_boundary (s ++ t) (byte_len s) ≡ true
unfolding is_char_boundary byte_len
is_char_boundary-append [] t = is_char_boundary-zero t
is_char_boundary-append (c ∷ s) t =
    let e : len_utf8 c + byte_len s - len_utf8 c ≡ byte_len s = omega arith in
    ground (arith, len_utf8_pos c, e, is_char_boundary-append s t)

pub is_char_boundary-byte_len : (s : Text) → is_char_boundary s (byte_len s) ≡ true
is_char_boundary-byte_len s = rw append-nil at (is_char_boundary-append s [])

pub is_char_boundary-le : (s : Text) (i : ℕ) → is_char_boundary s i ≡ true → i ≤ byte_len s
is_char_boundary-le s i h =
    let p = is_char_boundary-SplitsAt s i h in
    omega (arith, byte_len-append p.front p.back, ap byte_len p.joins, p.offset)

-- An insertion at a boundary succeeds, and adds the value between the two parts.
pub insert_str_at_boundary :
    {s : Text} {i : ℕ} (value : Text) (p : SplitsAt s i)
    → insert_str_at s i value ≡ some (p.front ++ (value ++ p.back))
unfolding insert_str_at
insert_str_at_boundary value p = ground (arith, p.head_slice, p.tail_slice)

pub replace_range_of_boundaries :
    {s : Text} {start end : ℕ} (value : Text) (p : SplitsAt s start) (q : SplitsAt s end)
    → start ≤ end
    → replace_range_of s start end value ≡ some (p.front ++ (value ++ q.back))
unfolding replace_range_of
replace_range_of_boundaries value p q h = ground (arith, p.head_slice, q.tail_slice)

pub is_char_boundary-step :
    {s : Text} {i : ℕ} (p : SplitsAt s i) (c : ℕ) (rest : Text)
    → s ≡ p.front ++ (c ∷ rest)
    → is_char_boundary s (i + len_utf8 c) ≡ true
is_char_boundary-step {s} {i} p c rest e =
    let front : Text = p.front ++ (c ∷ []) in
    let joined : s ≡ front ++ rest = e ∙ sym (append_assoc p.front (c ∷ []) rest) in
    let width : byte_len front ≡ i + len_utf8 c =
      unfold byte_len in omega (arith, byte_len-append p.front (c ∷ []), p.offset) in
    rw (joined, ← width) (is_char_boundary-append front rest)

pub is_char_boundary-middle :
    (a b c : Text) → is_char_boundary (a ++ (b ++ c)) (byte_len a + byte_len b) ≡ true
is_char_boundary-middle a b c =
    rw (← append_assoc a b c, ← byte_len-append a b) (is_char_boundary-append (a ++ b) c)
