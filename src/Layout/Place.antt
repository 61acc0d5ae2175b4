-- ===== src/Layout/Place.antt =====
-- The place that the two loops over the input have reached (src/ui/input_metrics.rs).
use vexcoder.Prelude.{
  ◌≡◌, refl, sym, ap, subst, ◌∙◌, ℕ, ◌+◌, ◌-◌, not, true, false, Option, none, some, List, [], ◌∷◌,
  ◌++◌, append-nil, append_assoc, arith, All, All-append, map, retain, ◌==◌, Text, len_utf8,
  len_utf8_pos, byte_len, byte_len-append,
}
use vexcoder.Prelude.Options.{◌>>=◌}
use vexcoder.Prelude.Strings.{slice_to, slice_from}
use vexcoder.Layout.Rows.{Span, slice}

-- What is drawn of a row: a carriage return is not.
abbrev pub visible : Text → Text
visible s = retain (λ c. not (c == b'\r')) s

abbrev visible_of : Option Text → Option Text
visible_of none = none
visible_of (some s) = some (visible s)

abbrev pub row_text : Text → Span → Option Text
row_text input (from, to) = visible_of (slice input from to)

visible-append : (a b : Text) → visible (a ++ b) ≡ visible a ++ visible b
visible-append [] b = refl
visible-append (c ∷ a) b = let ih = visible-append a b in ground arith

slice_to-front : (a b : Text) → slice_to (a ++ b) (byte_len a) ≡ some a
unfolding slice_to byte_len
slice_to-front [] [] = refl
slice_to-front [] (d ∷ b) = refl
slice_to-front (c ∷ a) b =
    let e : len_utf8 c + byte_len a - len_utf8 c ≡ byte_len a = omega arith in
    ground (arith, len_utf8_pos c, e, slice_to-front a b)

slice_from-back : (a b : Text) → slice_from (a ++ b) (byte_len a) ≡ some b
unfolding slice_from byte_len
slice_from-back [] [] = refl
slice_from-back [] (d ∷ b) = refl
slice_from-back (c ∷ a) b =
    let e : len_utf8 c + byte_len a - len_utf8 c ≡ byte_len a = omega arith in
    ground (arith, len_utf8_pos c, e, slice_from-back a b)

pub slice-middle :
    (a b c : Text) → slice (a ++ (b ++ c)) (byte_len a) (byte_len a + byte_len b) ≡ some b
unfolding slice
slice-middle a b c =
    ap (λ front. front >>= (λ f. slice_from f (byte_len a)))
      (ap (slice_to (a ++ (b ++ c))) (sym (byte_len-append a b))
        ∙ (ap (λ s. slice_to s (byte_len (a ++ b))) (sym (append_assoc a b c))
            ∙ slice_to-front (a ++ b) c))
    ∙ slice_from-back a b

-- The span starts and ends at characters of the text.
pub record Cut (input : Text) (span : Span) : Type 0 where
  pub before : Text
  pub row : Text
  pub behind : Text
  pub parts : input ≡ before ++ (row ++ behind)
  pub from : span.0 ≡ byte_len before
  pub to : span.1 ≡ byte_len before + byte_len row

-- The state of the two loops at the same place of the input
pub record At (input rest : Text) (idx : ℕ) (lines : List Text) (line : Text) (spans : List Span)
    (row_start : ℕ) : Type 0 where
  pub past : Text
  pub current : Text
  pub joins : input ≡ past ++ (current ++ rest)
  pub offset : idx ≡ byte_len past + byte_len current
  pub starts : row_start ≡ byte_len past
  pub shown : line ≡ visible current
  pub agree : map (row_text input) spans ≡ map some lines
  pub cuts : All (Cut input) spans

map-last :
    {A B : Type 0} (f : A → B) (xs : List A) (x : A)
    → map f (xs ++ (x ∷ [])) ≡ map f xs ++ (f x ∷ [])
map-last f [] x = refl
map-last f (y ∷ xs) x = ap (◌∷◌ (f y)) (map-last f xs x)

module _ {input rest : Text} {idx : ℕ} {lines : List Text} {line : Text} {spans : List Span}
    {row_start : ℕ} where
  row-At :
      At input rest idx lines line spans row_start → row_text input (row_start, idx) ≡ some line
  row-At p =
      let cut : slice input row_start idx ≡ some p.current =
        rw (p.joins, p.starts, p.offset) (slice-middle p.past p.current rest) in
      ap visible_of cut ∙ ap some (sym p.shown)

  -- A row more on both sides
  pub rows-At :
      At input rest idx lines line spans row_start
      → map (row_text input) (spans ++ ((row_start, idx) ∷ [])) ≡ map some (lines ++ (line ∷ []))
  rows-At p =
      map-last (row_text input) spans (row_start, idx)
      ∙ (ap (λ r. map (row_text input) spans ++ (r ∷ [])) (row-At p)
          ∙ (ap (λ l. l ++ (some line ∷ [])) p.agree ∙ sym (map-last some lines line)))

  pub cuts-At :
      At input rest idx lines line spans row_start
      → All (Cut input) (spans ++ ((row_start, idx) ∷ []))
  cuts-At p = All-append (Cut input) spans ((row_start, idx) ∷ []) p.cuts (
    record {
      before = p.past;
      row = p.current;
      behind = rest;
      parts = p.joins;
      from = p.starts;
      to = p.offset;
    },
    tt,
  )

  pub At-end_row :
      At input rest idx lines line spans row_start
      → At input rest idx (lines ++ (line ∷ [])) [] (spans ++ ((row_start, idx) ∷ [])) idx
  unfolding byte_len
  At-end_row p = record {
    past = p.past ++ p.current;
    current = [];
    joins = p.joins ∙ sym (append_assoc p.past p.current rest);
    offset = omega (arith, p.offset, byte_len-append p.past p.current);
    starts = omega (arith, p.offset, byte_len-append p.past p.current);
    shown = refl;
    agree = rows-At p;
    cuts = cuts-At p;
  }

module _ {input rest : Text} {c idx : ℕ} {lines : List Text} {line : Text} {spans : List Span}
    {row_start : ℕ} where
  pub At-push :
      At input (c ∷ rest) idx lines line spans row_start
      → At input rest (idx + len_utf8 c) lines (line ++ visible (c ∷ [])) spans row_start
  unfolding byte_len
  At-push p = record {
    past = p.past;
    current = p.current ++ (c ∷ []);
    joins = p.joins ∙ ap (λ s. p.past ++ s) (sym (append_assoc p.current (c ∷ []) rest));
    offset = omega (arith, p.offset, byte_len-append p.current (c ∷ []));
    starts = p.starts;
    shown = ap (λ s. s ++ visible (c ∷ [])) p.shown ∙ sym (visible-append p.current (c ∷ []));
    agree = p.agree;
    cuts = p.cuts;
  }

  pub At-newline :
      At input (c ∷ rest) idx lines line spans row_start
      → At input rest
          (idx + len_utf8 c)
          (lines ++ (line ∷ []))
          []
          (spans ++ ((row_start, idx) ∷ []))
          (idx + len_utf8 c)
  unfolding byte_len
  At-newline p = record {
    past = p.past ++ (p.current ++ (c ∷ []));
    current = [];
    joins =
        p.joins
        ∙ (ap (λ s. p.past ++ s) (sym (append_assoc p.current (c ∷ []) rest))
            ∙ sym (append_assoc p.past (p.current ++ (c ∷ [])) rest));
    offset = omega (
      arith,
      p.offset,
      byte_len-append p.past (p.current ++ (c ∷ [])),
      byte_len-append p.current (c ∷ []),
    );
    starts = omega (
      arith,
      p.offset,
      byte_len-append p.past (p.current ++ (c ∷ [])),
      byte_len-append p.current (c ∷ []),
    );
    shown = refl;
    agree = rows-At p;
    cuts = cuts-At p;
  }

module _ {input rest : Text} {c idx : ℕ} {lines : List Text} {line : Text} {spans : List Span}
    {row_start : ℕ} where
  pub At-silent :
      (c == b'\r') ≡ true
      → At input (c ∷ rest) idx lines line spans row_start
      → At input rest (idx + len_utf8 c) lines line spans row_start
  At-silent cr p =
      let same : line ++ visible (c ∷ []) ≡ line = rw cr (append-nil line) in
      subst (λ l. At input rest (idx + len_utf8 c) lines l spans row_start) same (At-push p)

  pub At-char :
      (c == b'\r') ≡ false
      → At input (c ∷ rest) idx lines line spans row_start
      → At input rest (idx + len_utf8 c) lines (line ++ (c ∷ [])) spans row_start
  At-char no_cr p =
      let same : line ++ visible (c ∷ []) ≡ line ++ (c ∷ []) = rw no_cr refl in
      subst (λ l. At input rest (idx + len_utf8 c) lines l spans row_start) same (At-push p)
