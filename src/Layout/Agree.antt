-- ===== src/Layout/Agree.antt =====
-- The lines that are drawn and the rows that the cursor moves in (src/ui/input_metrics.rs).
use vexcoder.Prelude.{
  ◌≡◌, refl, sym, ap, subst, ◌∙◌, inl, inr, ℕ, suc, ◌+◌, ◌≤◌, min, max, Bool-cases, some, List, [],
  ◌∷◌, ◌++◌, append-nil, arith, All, map, take, length, length-append, leb, ◌==◌, Text, len_utf8,
  byte_len, byte_len-append,
}
use vexcoder.Editor.Boundary.{clamp_cursor_to_boundary_left}
use vexcoder.Layout.Wrap.{Unicode, wraps_before, Wrapping, wrap_char, wrap_from, wrap_input_lines}
use vexcoder.Layout.Rows.{Span, Scan, scan_char, scan_from, close_layout, start, visual_layout}
use vexcoder.Layout.Place.{
  Cut, cuts-At, row_text, At, rows-At, At-end_row, At-newline, At-silent, At-char,
}

-- Both loops at the end, with the last row
abbrev pub last_rows : Text → Scan → List Span
last_rows input s = s.spans ++ ((s.row_start, byte_len input) ∷ [])

abbrev pub Ended : Text → Scan → List Text → Type 0
Ended input s lines =
    (s.row_start ≤ byte_len input)
    × (map (row_text input) (last_rows input s) ≡ map some lines)
    × All (Cut input) (last_rows input s)

-- Both loops at one place: the last line is as wide as the column of the scan.
abbrev Same : Text → Text → ℕ → Wrapping → Scan → Type 0
Same input rest idx w s =
    At input rest idx w.lines w.line s.spans s.row_start × (w.line_width ≡ s.col)

module _ (unicode : Unicode) (width cursor_byte : ℕ) {input : Text} where
  Same-step :
      (c : ℕ) {rest : Text} (idx : ℕ) (w : Wrapping) (s : Scan)
      → Same input (c ∷ rest) idx w s
      → Same input rest
          (idx + len_utf8 c)
          (wrap_char unicode width c w)
          (scan_char unicode width cursor_byte idx c s)
  unfolding wrap_char scan_char
  Same-step c {rest} idx w s (p, e) = elim (Bool-cases (c == b'\r')) [
    | inl cr ↦ rw cr (At-silent cr p, e)
    | inr no_cr ↦ elim (Bool-cases (c == b'\n')) [
      | inl lf ↦ rw (no_cr, lf) (At-newline p, refl)
      | inr no_lf ↦ elim (Bool-cases (wraps_before unicode width s.col c)) [
        | inl wraps ↦ rw (no_cr, no_lf, e, wraps) (At-char no_cr (At-end_row p), refl)
        | inr stays ↦ rw (no_cr, no_lf, e, stays) (At-char no_cr p, refl)
      ]
    ]
  ]

  Same-loop :
      (rest : Text) (idx : ℕ) (w : Wrapping) (s : Scan)
      → Same input rest idx w s
      → Ended input
          (scan_from unicode width cursor_byte idx rest s)
          (wrap_from unicode width rest w)
  unfolding wrap_from scan_from
  Same-loop [] idx w s (p, e) =
      let end : byte_len input ≡ idx = omega (
        arith,
        p.offset,
        ap byte_len p.joins,
        byte_len-append p.past (p.current ++ []),
        ap byte_len (append-nil p.current),
      ) in
      (omega (arith, p.starts, p.offset, end), rw end (rows-At p), rw end (cuts-At p))
  Same-loop (c ∷ rest) idx w s h =
      Same-loop rest (idx + len_utf8 c) (wrap_char unicode width c w)
        (scan_char unicode width cursor_byte idx c s) (Same-step c idx w s h)

-- The rows show the lines in their order; one empty row more may stand behind them.
abbrev pub Agrees : Text → List Text → List Span → Type 0
Agrees input lines spans =
    (map (row_text input) (take (length lines) spans) ≡ map some lines)
    × (length lines ≤ length spans)
    × (length spans ≤ length lines + 1)

length-map : {A B : Type 0} (f : A → B) (xs : List A) → length (map f xs) ≡ length xs
length-map f [] = refl
length-map f (x ∷ xs) = ap suc (length-map f xs)

take-front : {A : Type 0} (xs ys : List A) → take (length xs) (xs ++ ys) ≡ xs
take-front [] ys = refl
take-front (x ∷ xs) ys = ap (◌∷◌ x) (take-front xs ys)

Agrees-append :
    (input : Text) (lines : List Text) (rows extra : List Span)
    → map (row_text input) rows ≡ map some lines
    → length extra ≤ 1
    → Agrees input lines (rows ++ extra)
Agrees-append input lines rows extra e short =
    let same : length lines ≡ length rows =
      sym (length-map some lines) ∙ (ap length (sym e) ∙ length-map (row_text input) rows) in
    let total = length-append rows extra in
    (
      ap (map (row_text input)) (ap (λ n. take n (rows ++ extra)) same ∙ take-front rows extra) ∙ e,
      omega (arith, total, same),
      omega (arith, total, same, short),
    )

close-Agrees :
    (input : Text) (width cursor_byte : ℕ) (s : Scan) (lines : List Text)
    → s.row_start ≤ byte_len input
    → map (row_text input) (s.spans ++ ((s.row_start, byte_len input) ∷ [])) ≡ map some lines
    → Agrees input lines (close_layout width cursor_byte (byte_len input) s).spans
unfolding close_layout
close-Agrees input width cursor_byte s lines h e =
    let start : min s.row_start (byte_len input) ≡ s.row_start = omega (arith, h) in
    elim (Bool-cases (leb width s.col)) [
      | inl full ↦
          rw (full, start)
            (Agrees-append input lines (s.spans ++ ((s.row_start, byte_len input) ∷ []))
              ((byte_len input, byte_len input) ∷ []) e (omega arith))
      | inr room ↦
          rw (room, start)
            (subst (Agrees input lines)
              (append-nil (s.spans ++ ((s.row_start, byte_len input) ∷ [])))
              (Agrees-append input lines (s.spans ++ ((s.row_start, byte_len input) ∷ [])) [] e
                (omega arith)))
    ]

At-start : (input : Text) → At input input 0 [] [] [] 0
unfolding byte_len
At-start input = record {
  past = [];
  current = [];
  joins = refl;
  offset = omega arith;
  starts = refl;
  shown = refl;
  agree = refl;
  cuts = tt;
}

pub visual_layout-Ended :
    (unicode : Unicode) (input : Text) (cursor_byte width : ℕ)
    → Ended input
        (scan_from unicode
          (max width 1)
          (clamp_cursor_to_boundary_left input cursor_byte)
          0
          input
          start)
        (wrap_input_lines unicode input width)
visual_layout-Ended unicode input cursor_byte width =
    Same-loop unicode (max width 1) (clamp_cursor_to_boundary_left input cursor_byte) input 0
      (record { lines = []; line = []; line_width = 0 }) start (At-start input, refl)

-- The lines that are drawn are the rows that the cursor moves in: for every text, cursor and
-- width, the bytes of the rows without carriage returns are the wrapped lines, in order, and the
-- layout has at most one row more, for a cursor behind a full last line.
pub visual_layout-Agrees :
    (unicode : Unicode) (input : Text) (cursor_byte width : ℕ)
    → Agrees input
        (wrap_input_lines unicode input width)
        (visual_layout unicode input cursor_byte width).spans
unfolding visual_layout
visual_layout-Agrees unicode input cursor_byte width =
    let cursor = clamp_cursor_to_boundary_left input cursor_byte in
    let (h, e, cuts) = visual_layout-Ended unicode input cursor_byte width in
    close-Agrees input (max width 1) cursor (scan_from unicode (max width 1) cursor 0 input start)
      (wrap_input_lines unicode input width) h e
