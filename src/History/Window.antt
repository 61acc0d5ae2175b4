-- ===== src/History/Window.antt =====
-- The search for the start of a turn, and what a window keeps.
use vexcoder.Prelude.{
  ℕ, zero, suc, ◌+◌, ◌≤◌, ◌≡◌, ◌⊎◌, inl, inr, refl, Bool, true, false, Bool-cases, some, List, [],
  ◌∷◌, arith, length, drop, take, retain, get_elem?,
}
use vexcoder.History.Message.{ApiMessage, starts_turn}
use vexcoder.History.Prune.{find_start}

module _ {ℓ} {A : Type ℓ} where
  pub get_elem?-drop : (n i : ℕ) (xs : List A) → get_elem? (drop n xs) i ≡ get_elem? xs (n + i)
  get_elem?-drop zero i xs = let e : 0 + i ≡ i = omega arith in rw e
  get_elem?-drop (suc n) i [] = refl
  get_elem?-drop (suc n) i (x ∷ xs) =
      let e : suc n + i ≡ suc (n + i) = omega arith in rw e (get_elem?-drop n i xs)

pub find_start-ge : (stop : ℕ → Bool) (ms : List ApiMessage) (i : ℕ) → i ≤ find_start stop ms i
unfolding find_start
find_start-ge stop [] i = omega arith
find_start-ge stop (m ∷ rest) i = ground (arith, find_start-ge stop rest (i + 1))

-- The search ends at a message that starts a turn, if it has not ended before it.
pub find_start-le :
    (stop : ℕ → Bool) (ms : List ApiMessage) (i j : ℕ) {m : ApiMessage}
    → get_elem? ms j ≡ some m
    → starts_turn m ≡ true
    → find_start stop ms i ≤ i + j
unfolding find_start
find_start-le stop [] i j e t = cc
find_start-le stop (x ∷ rest) i zero e t = ground arith
find_start-le stop (x ∷ rest) i (suc j) e t = ground (arith, find_start-le stop rest (i + 1) j e t)

-- Without a test on an anchor, the search stays within the messages.
pub find_start_bound :
    (stop : ℕ → Bool) (ms : List ApiMessage) (i : ℕ) → find_start stop ms i ≤ i + length ms
unfolding find_start
find_start_bound stop [] i = omega arith
find_start_bound stop (m ∷ rest) i = ground (arith, find_start_bound stop rest (i + 1))

-- The search ends at once where its test holds.
pub find_start_here :
    (stop : ℕ → Bool) (ms : List ApiMessage) (i : ℕ) → stop i ≡ true → find_start stop ms i ≡ i
unfolding find_start
find_start_here stop [] i e = refl
find_start_here stop (m ∷ rest) i e = rw e

-- Where the search ends: behind all messages, or at the first one that starts a turn, `k` behind
-- its start.
abbrev pub FirstTurn : List ApiMessage → ℕ → ℕ → Type 0
FirstTurn ms i found =
    (found ≡ i + length ms)
    ⊎ ((k : ℕ) × (m : ApiMessage) × (rest : List ApiMessage) × (found ≡ i + k)
        × (drop k ms ≡ m ∷ rest)
        × (starts_turn m ≡ true)
        × (retain starts_turn (take k ms) ≡ []))

pub find_start-FirstTurn :
    (stop : ℕ → Bool) (ms : List ApiMessage) (i : ℕ)
    → ((j : ℕ) → stop j ≡ false)
    → FirstTurn ms i (find_start stop ms i)
unfolding find_start
find_start-FirstTurn stop [] i h = inl (omega arith)
find_start-FirstTurn stop (m ∷ rest) i h = elim (Bool-cases (starts_turn m)) [
  | inl y ↦ rw (h i, y) (inr (0, m, rest, omega arith, refl, y, refl))
  | inr n ↦
      rw (h i, n)
        (elim (find_start-FirstTurn stop rest (i + 1) h) [
          | inl past ↦ inl (omega (arith, past))
          | inr (k, t, later, at, here, y, none_before) ↦
              inr (suc k, t, later, omega (arith, at), here, y, rw n none_before)
        ])
]
