-- ===== src/Prelude/Entries.antt =====
-- The number of the entries of a map, and a sum over them.
use Prim.Native.Nat.{ℕ, suc, ◌+◌, ◌≤◌}
use mathlib.Core.List.{[], ◌∷◌}
use mathlib.Core.Logic.{inl, inr}
use mathlib.Core.Option.{none, some}
use mathlib.Core.Path.{◌≡◌, refl, subst}
use native.Mathlib.Omega.{arith}
use vexcoder.Prelude.Assoc.{Assoc, lookup, insert, remove, IsUnique}
use vexcoder.Prelude.Chars.{Text, text_eq, text_eq_iff}
use vexcoder.Prelude.Lists.{length}
use vexcoder.Prelude.Tests.{Bool-cases}

module _ {V : Type 0} where
  pub length-insert : (k : Text) (v : V) (m : Assoc V) → length (insert k v m) ≤ suc (length m)
  unfolding insert
  length-insert k v [] = omega arith
  length-insert k v ((j, w) ∷ m) = ground (arith, length-insert k v m)

  pub length-insert_known :
      (k : Text) (v : V) (m : Assoc V) {w : V}
      → lookup k m ≡ some w
      → length (insert k v m) ≡ length m
  unfolding insert lookup
  length-insert_known k v [] h = cc
  length-insert_known k v ((j, u) ∷ m) {w} h = ground (arith, length-insert_known k v m {w = w})

  pub length-remove : (k : Text) (m : Assoc V) → length (remove k m) ≤ length m
  unfolding remove
  length-remove k [] = omega arith
  length-remove k ((j, w) ∷ m) = ground (arith, length-remove k m)

  -- An entry that is there is taken out.
  pub length-remove_known :
      (k : Text) (m : Assoc V) {w : V} → lookup k m ≡ some w → suc (length (remove k m)) ≤ length m
  unfolding remove lookup
  length-remove_known k [] h = cc
  length-remove_known k ((j, u) ∷ m) {w} h =
      ground (arith, length-remove k m, length-remove_known k m {w = w})

module _ {V : Type 0} where
  -- A sum over the values
  abbrev pub sum_values : (V → ℕ) → Assoc V → ℕ
  sum_values f [] = 0
  sum_values f ((k, v) ∷ m) = f v + sum_values f m

  pub remove-absent : (k : Text) (m : Assoc V) → lookup k m ≡ none → remove k m ≡ m
  unfolding lookup remove
  remove-absent k [] h = refl
  remove-absent k ((j, v) ∷ m) h = ground (arith, remove-absent k m)

  pub sum_values-remove :
      (f : V → ℕ) (k : Text) (m : Assoc V) {v : V}
      → IsUnique m
      → lookup k m ≡ some v
      → f v + sum_values f (remove k m) ≡ sum_values f m
  unfolding lookup remove
  sum_values-remove f k [] u h = cc
  sum_values-remove f k ((j, w) ∷ m) {v} u h = elim (Bool-cases (text_eq j k)) [
    | inl same ↦
        let e : j ≡ k = (text_eq_iff j k).0 same in
        let gone : remove k m ≡ m =
          remove-absent k m (subst (λ (i : Text). lookup i m ≡ none) e u.0) in
        let value : w ≡ v = ground arith in rw (same, gone) (ground (arith, value))
    | inr other ↦ ground (arith, other, sum_values-remove f k m {v = v} u.1)
  ]

  pub sum_values-insert_absent :
      (f : V → ℕ) (k : Text) (v : V) (m : Assoc V)
      → lookup k m ≡ none
      → sum_values f (insert k v m) ≡ f v + sum_values f m
  unfolding lookup insert
  sum_values-insert_absent f k v [] h = refl
  sum_values-insert_absent f k v ((j, w) ∷ m) h = ground (arith, sum_values-insert_absent f k v m)

  -- A new value that counts as much changes no sum.
  pub sum_values-insert_known :
      (f : V → ℕ) (k : Text) (v : V) (m : Assoc V) {w : V}
      → lookup k m ≡ some w
      → f v ≡ f w
      → sum_values f (insert k v m) ≡ sum_values f m
  unfolding lookup insert
  sum_values-insert_known f k v [] h e = cc
  sum_values-insert_known f k v ((j, u) ∷ m) {w} h e = elim (Bool-cases (text_eq j k)) [
    | inl same ↦ let value : u ≡ w = ground arith in rw same (ground (arith, value, e))
    | inr other ↦ ground (arith, other, sum_values-insert_known f k v m {w = w})
  ]
