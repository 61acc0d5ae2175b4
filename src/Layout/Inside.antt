-- ===== src/Layout/Inside.antt =====
-- The row that an offset lies in, while the rows are found (src/ui/input_metrics.rs).
use vexcoder.Prelude.{
  ◌≡◌, refl, inl, inr, ℕ, zero, suc, ◌+◌, ◌≤◌, ◌<◌, Bool-cases, Option, none, some, List, [], ◌∷◌,
  ◌++◌, arith, length, get_elem?, leb,
}
use vexcoder.Layout.Rows.{Span, Scan, set_cursor}

-- The offset lies in the row of that number.
abbrev pub Inside : ℕ → ℕ → List Span → Type 0
Inside cursor r rows =
    (a : ℕ) × (b : ℕ) × (get_elem? rows r ≡ some (a, b)) × (a ≤ cursor) × (cursor ≤ b)

pub get_elem?-left :
    (xs ys : List Span) (i : ℕ) {x : Span}
    → get_elem? xs i ≡ some x
    → get_elem? (xs ++ ys) i ≡ some x
get_elem?-left [] ys i h = cc
get_elem?-left (z ∷ xs) ys zero h = h
get_elem?-left (z ∷ xs) ys (suc i) h = get_elem?-left xs ys i h

pub get_elem?-last : (xs : List Span) (x : Span) → get_elem? (xs ++ (x ∷ [])) (length xs) ≡ some x
get_elem?-last [] x = refl
get_elem?-last (z ∷ xs) x = get_elem?-last xs x

-- A row stays where a last row grows.
get_elem?-grow :
    (cursor : ℕ) (xs : List Span) (a b b2 : ℕ) (r : ℕ)
    → b ≤ b2
    → Inside cursor r (xs ++ ((a, b) ∷ []))
    → Inside cursor r (xs ++ ((a, b2) ∷ []))
get_elem?-grow cursor [] a b b2 zero h (c, d, e, lo, hi) =
    (a, b2, refl, ground (arith, e), ground (arith, e))
get_elem?-grow cursor [] a b b2 (suc r) h (c, d, e, lo, hi) = cc
get_elem?-grow cursor (x ∷ xs) a b b2 zero h i = i
get_elem?-grow cursor (x ∷ xs) a b b2 (suc r) h i = get_elem?-grow cursor xs a b b2 r h i

pub Inside-left :
    (cursor r : ℕ) (xs ys : List Span) → Inside cursor r xs → Inside cursor r (xs ++ ys)
Inside-left cursor r xs ys (a, b, e, lo, hi) = (a, b, get_elem?-left xs ys r e, lo, hi)

pub Inside-last :
    (cursor r : ℕ) (xs : List Span) (a b : ℕ)
    → r ≡ length xs
    → a ≤ cursor
    → cursor ≤ b
    → Inside cursor r (xs ++ ((a, b) ∷ []))
Inside-last cursor r xs a b e lo hi = (a, b, rw e (get_elem?-last xs (a, b)), lo, hi)

module _ (cursor : ℕ) where
  -- Before the character at the offset: the cursor is still to come, or in a row.
  abbrev pub Before : List Span → ℕ → Option Span → Type 0
  Before rows idx none = idx ≤ cursor
  Before rows idx (some (r, col)) = Inside cursor r rows × (cursor < idx)

  abbrev pub After : List Span → ℕ → Option Span → Type 0
  After rows idx none = idx < cursor
  After rows idx (some (r, col)) = Inside cursor r rows × (cursor ≤ idx)

  abbrev pub open_rows : Scan → ℕ → List Span
  open_rows s idx = s.spans ++ ((s.row_start, idx) ∷ [])

  abbrev pub Tracks : Scan → ℕ → Type 0
  Tracks s idx =
      (s.row ≡ length s.spans) × (s.row_start ≤ idx) × Before (open_rows s idx) idx s.cursor

  -- The cursor is set in the row that is open.
  pub set_cursor-After :
      (s : Scan) (idx col : ℕ)
      → Tracks s idx
      → After (open_rows s idx) idx (set_cursor (leb cursor idx) (s.row, col) s).cursor
  set_cursor-After s idx col (r, h, b) = go s.cursor b
    where
      go :
          (o : Option Span)
          → Before (open_rows s idx) idx o
          → After
              (open_rows s idx)
              idx
              (set_cursor (leb cursor idx) (s.row, col) (record s { cursor = o })).cursor
      go none b = elim (Bool-cases (leb cursor idx)) [
        | inl at ↦ rw at (
          Inside-last cursor s.row s.spans s.row_start idx r (ground arith) (ground arith),
          ground arith,
        )
        | inr later ↦ rw later (ground arith)
      ]
      go (some (q, c)) (i, lt) = (i, omega (arith, lt))

  -- The character is taken: the open row grows by it.
  pub After-grow :
      (spans : List Span) (row_start idx n : ℕ) (o : Option Span)
      → 0 < n
      → (idx < cursor → idx + n ≤ cursor)
      → After (spans ++ ((row_start, idx) ∷ [])) idx o
      → Before (spans ++ ((row_start, idx + n) ∷ [])) (idx + n) o
  After-grow spans row_start idx n none p step h = step h
  After-grow spans row_start idx n (some (r, c)) p step (i, h) =
      (get_elem?-grow cursor spans row_start idx (idx + n) r (omega arith) i, omega (arith, h, p))

  -- The row ends at the offset and a next one starts.
  pub After-end :
      (rows : List Span) (row : Span) (idx n : ℕ) (o : Option Span)
      → 0 < n
      → (idx < cursor → idx + n ≤ cursor)
      → After rows idx o
      → Before (rows ++ (row ∷ [])) (idx + n) o
  After-end rows row idx n none p step h = step h
  After-end rows row idx n (some (r, c)) p step (i, h) =
      (Inside-left cursor r rows (row ∷ []) i, omega (arith, h, p))
