-- ===== src/Layout/Widths.antt =====
-- The lines that are drawn hold the text and fit their width (src/ui/input_metrics.rs).
use vexcoder.Prelude.{
  ◌≡◌, refl, sym, ap, ◌∙◌, inl, inr, ℕ, ◌+◌, ◌≤◌, max, not, ◌&&◌, Bool-cases, List, [], ◌∷◌, ◌++◌,
  append-nil, append_assoc, arith, All, All-append, retain, ◌==◌, Text,
}
use vexcoder.Layout.Wrap.{
  Unicode, char_display_width, wraps_before, Wrapping, push_line, push_char, wrap_char, wrap_from,
  wrap_input_lines,
}

-- The text of lines that are put one behind the other
abbrev pub joined : List Text → Text
joined [] = []
joined (l ∷ ls) = l ++ joined ls

joined-append : (a b : List Text) → joined (a ++ b) ≡ joined a ++ joined b
joined-append [] b = refl
joined-append (l ∷ a) b =
    ap (λ t. l ++ t) (joined-append a b) ∙ sym (append_assoc l (joined a) (joined b))

-- The characters that are drawn
abbrev pub drawn : Text → Text
drawn s = retain (λ c. not (c == b'\r') && not (c == b'\n')) s

abbrev text_of : Wrapping → Text
text_of w = joined w.lines ++ w.line

push_line-text_of : (w : Wrapping) → text_of (push_line w) ≡ text_of w
push_line-text_of w =
    append-nil (joined (w.lines ++ (w.line ∷ [])))
    ∙ (joined-append w.lines (w.line ∷ []) ∙ ap (λ t. joined w.lines ++ t) (append-nil w.line))

module _ (unicode : Unicode) where
  abbrev pub text_width : Text → ℕ
  text_width [] = 0
  text_width (c ∷ s) = char_display_width unicode c + text_width s

  text_width-append : (a b : Text) → text_width (a ++ b) ≡ text_width a + text_width b
  text_width-append [] b = omega arith
  text_width-append (c ∷ a) b = omega (arith, text_width-append a b)

  push_char-text_of :
      (c : ℕ) (w : Wrapping) → text_of (push_char unicode c w) ≡ text_of w ++ (c ∷ [])
  push_char-text_of c w = sym (append_assoc (joined w.lines) w.line (c ∷ []))

  wrap_char-text_of :
      (width c : ℕ) (w : Wrapping)
      → text_of (wrap_char unicode width c w) ≡ text_of w ++ drawn (c ∷ [])
  unfolding wrap_char
  wrap_char-text_of width c w = elim (Bool-cases (c == b'\r')) [
    | inl cr ↦ rw cr (sym (append-nil (text_of w)))
    | inr no_cr ↦ elim (Bool-cases (c == b'\n')) [
      | inl lf ↦ rw (no_cr, lf) (push_line-text_of w ∙ sym (append-nil (text_of w)))
      | inr no_lf ↦ elim (Bool-cases (wraps_before unicode width w.line_width c)) [
        | inl wraps ↦
            rw (no_cr, no_lf, wraps)
              (push_char-text_of c (push_line w) ∙ ap (λ t. t ++ (c ∷ [])) (push_line-text_of w))
        | inr stays ↦ rw (no_cr, no_lf, stays) (push_char-text_of c w)
      ]
    ]
  ]

  drawn-cons : (c : ℕ) (s : Text) → drawn (c ∷ s) ≡ drawn (c ∷ []) ++ drawn s
  drawn-cons c s = ground arith

  joined-wrap_from :
      (width : ℕ) (s : Text) (w : Wrapping)
      → joined (wrap_from unicode width s w) ≡ text_of w ++ drawn s
  unfolding wrap_from
  joined-wrap_from width [] w =
      joined-append w.lines (w.line ∷ [])
      ∙ (ap (λ t. joined w.lines ++ t) (append-nil w.line) ∙ sym (append-nil (text_of w)))
  joined-wrap_from width (c ∷ s) w =
      joined-wrap_from width s (wrap_char unicode width c w)
      ∙ (ap (λ t. t ++ drawn s) (wrap_char-text_of width c w)
          ∙ (append_assoc (text_of w) (drawn (c ∷ [])) (drawn s)
              ∙ ap (λ t. text_of w ++ t) (sym (drawn-cons c s))))

  -- Every line fits.
  abbrev Fits : ℕ → Text → Type 0
  Fits m l = text_width l ≤ m

  abbrev FitsAll : ℕ → Wrapping → Type 0
  FitsAll m w = All (Fits m) w.lines × (w.line_width ≡ text_width w.line) × (w.line_width ≤ m)

  push_line-FitsAll : (m : ℕ) (w : Wrapping) → FitsAll m w → FitsAll m (push_line w)
  push_line-FitsAll m w (h, e, f) =
      (All-append (Fits m) w.lines (w.line ∷ []) h (omega (arith, e, f), tt), refl, omega arith)

  push_char-FitsAll :
      (m c : ℕ) (w : Wrapping)
      → w.line_width + char_display_width unicode c ≤ m
      → FitsAll m w
      → FitsAll m (push_char unicode c w)
  push_char-FitsAll m c w fits (h, e, f) =
      (h, omega (arith, e, text_width-append w.line (c ∷ [])), fits)

  module _ (widest : ℕ) (bound : (c : ℕ) → char_display_width unicode c ≤ widest) (width : ℕ) where
    wrap_char-FitsAll :
        (c : ℕ) (w : Wrapping)
        → FitsAll (max widest width) w
        → FitsAll (max widest width) (wrap_char unicode width c w)
    unfolding wrap_char wraps_before
    wrap_char-FitsAll c w h = elim (Bool-cases (c == b'\r')) [
      | inl cr ↦ rw cr h
      | inr no_cr ↦ elim (Bool-cases (c == b'\n')) [
        | inl lf ↦ rw (no_cr, lf) (push_line-FitsAll (max widest width) w h)
        | inr no_lf ↦ elim (Bool-cases (wraps_before unicode width w.line_width c)) [
          | inl wraps ↦
              rw (no_cr, no_lf, wraps)
                (push_char-FitsAll (max widest width) c (push_line w) (omega (arith, bound c))
                  (push_line-FitsAll (max widest width) w h))
          | inr stays ↦
              rw (no_cr, no_lf, stays)
                (push_char-FitsAll (max widest width) c w (ground (arith, bound c, stays)) h)
        ]
      ]
    ]

    wrap_from-Fits :
        (s : Text) (w : Wrapping)
        → FitsAll (max widest width) w
        → All (Fits (max widest width)) (wrap_from unicode width s w)
    unfolding wrap_from
    wrap_from-Fits [] w (h, e, f) =
        All-append (Fits (max widest width)) w.lines (w.line ∷ []) h (omega (arith, e, f), tt)
    wrap_from-Fits (c ∷ s) w h =
        wrap_from-Fits s (wrap_char unicode width c w) (wrap_char-FitsAll c w h)

-- Where no character is wider than some width, no line of a wrapped text is wider than that or the
-- width that it is wrapped at, of which 1 is the least; and the lines hold the text, in order,
-- without its carriage returns and line feeds.
pub wrap_input_lines-Fits :
    (unicode : Unicode) (widest : ℕ)
    → ((c : ℕ) → char_display_width unicode c ≤ widest)
    → (input : Text) (width : ℕ)
    → All
        (λ l. text_width unicode l ≤ max widest (max width 1))
        (wrap_input_lines unicode input width)
      × (joined (wrap_input_lines unicode input width) ≡ drawn input)
wrap_input_lines-Fits unicode widest bound input width = (
  wrap_from-Fits unicode widest bound (max width 1) input
      (record { lines = []; line = []; line_width = 0 }) (tt, refl, omega arith),
  joined-wrap_from unicode (max width 1) input (record { lines = []; line = []; line_width = 0 }),
)
