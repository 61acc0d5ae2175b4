-- ===== src/Prelude/Assoc.antt =====
-- A map with text keys, as the list of its entries in one fixed order: a `HashMap` does not promise
-- an order, and a `BTreeMap` has that of its keys.
use mathlib.Core.Bool.{Bool, true, false}
use mathlib.Core.List.{List, [], ◌∷◌}
use mathlib.Core.Logic.{inl, inr}
use mathlib.Core.Option.{Option, none, some}
use mathlib.Core.Path.{◌≡◌, refl, sym, subst, subst₂}
use native.Mathlib.Omega.{arith}
use vexcoder.Prelude.Chars.{Text, text_eq, text_eq_iff}
use vexcoder.Prelude.Tests.{if◌then◌else◌, Bool-cases}

abbrev pub Assoc {ℓ} : Type ℓ → Type ℓ
Assoc V = List (Text × V)

abbrev pub is_some {ℓ} : {A : Type ℓ} → Option A → Bool
is_some none = false
is_some (some a) = true

module _ {ℓ} {V : Type ℓ} where
  unfoldable pub lookup : Text → Assoc V → Option V
  lookup k [] = none
  lookup k ((j, v) ∷ m) = if text_eq j k then some v else lookup k m

  unfoldable pub contains_key : Text → Assoc V → Bool
  contains_key k m = is_some (lookup k m)

  -- A new key goes to the end.
  unfoldable pub insert : Text → V → Assoc V → Assoc V
  insert k v [] = (k, v) ∷ []
  insert k v ((j, w) ∷ m) = if text_eq j k then (j, v) ∷ m else (j, w) ∷ insert k v m

  unfoldable pub remove : Text → Assoc V → Assoc V
  remove k [] = []
  remove k ((j, v) ∷ m) = let rest = remove k m in if text_eq j k then rest else (j, v) ∷ rest

  -- `HashMap::retain`
  unfoldable pub retain_entries : (Text → V → Bool) → Assoc V → Assoc V
  retain_entries keep [] = []
  retain_entries keep ((j, v) ∷ m) =
      let rest = retain_entries keep m in if keep j v then (j, v) ∷ rest else rest

  abbrev pub keys : Assoc V → List Text
  keys [] = []
  keys ((k, v) ∷ m) = k ∷ keys m

  -- No key stands twice.
  abbrev pub IsUnique : Assoc V → Type ℓ
  IsUnique [] = Unit
  IsUnique ((k, v) ∷ m) = (lookup k m ≡ none) × IsUnique m

module _ {ℓ} {V : Type ℓ} where
  pub lookup-insert :
      (k j : Text) (v : V) (m : Assoc V)
      → lookup j (insert k v m) ≡ (if text_eq k j then some v else lookup j m)
  unfolding lookup insert
  lookup-insert k j v [] = refl
  lookup-insert k j v ((i, w) ∷ m) =
      ground (arith, text_eq_iff k j, text_eq_iff i k, text_eq_iff i j, lookup-insert k j v m)

  pub lookup-remove :
      (k j : Text) (m : Assoc V)
      → lookup j (remove k m) ≡ (if text_eq k j then none else lookup j m)
  unfolding lookup remove
  lookup-remove k j [] = ground arith
  lookup-remove k j ((i, w) ∷ m) =
      ground (arith, text_eq_iff k j, text_eq_iff i k, text_eq_iff i j, lookup-remove k j m)

  pub lookup-retain_none :
      (keep : Text → V → Bool) (j : Text) (m : Assoc V)
      → lookup j m ≡ none
      → lookup j (retain_entries keep m) ≡ none
  unfolding lookup retain_entries
  lookup-retain_none keep j [] h = refl
  lookup-retain_none keep j ((i, w) ∷ m) h = ground (arith, lookup-retain_none keep j m)

  -- What `retain` leaves at a key, where no key stands twice.
  abbrev pub kept : (Text → V → Bool) → Text → Option V → Option V
  kept keep j none = none
  kept keep j (some v) = if keep j v then some v else none

  pub lookup-retain_entries :
      (keep : Text → V → Bool) (j : Text) (m : Assoc V)
      → IsUnique m
      → lookup j (retain_entries keep m) ≡ kept keep j (lookup j m)
  unfolding lookup retain_entries
  lookup-retain_entries keep j [] u = refl
  lookup-retain_entries keep j ((i, w) ∷ m) u = elim (Bool-cases (text_eq i j)) [
    | inl same ↦
        let e : i ≡ j = (text_eq_iff i j).0 same in
        ground (arith, e, lookup-retain_none keep i m u.0, lookup-retain_none keep j m)
    | inr other ↦ ground (arith, lookup-retain_entries keep j m u.1)
  ]

module _ {ℓ} {V : Type ℓ} where
  pub insert-IsUnique : (k : Text) (v : V) (m : Assoc V) → IsUnique m → IsUnique (insert k v m)
  unfolding insert
  insert-IsUnique k v [] u = (unfold lookup in refl, tt)
  insert-IsUnique k v ((j, w) ∷ m) u = elim (Bool-cases (text_eq j k)) [
    | inl same ↦ rw same u
    | inr other ↦ rw other (
      ground (arith, lookup-insert k j v m, text_eq_iff k j, text_eq_iff j k, u.0),
      insert-IsUnique k v m u.1,
    )
  ]

  pub remove-IsUnique : (k : Text) (m : Assoc V) → IsUnique m → IsUnique (remove k m)
  unfolding remove
  remove-IsUnique k [] u = u
  remove-IsUnique k ((j, w) ∷ m) u = elim (Bool-cases (text_eq j k)) [
    | inl same ↦ rw same (remove-IsUnique k m u.1)
    | inr other ↦ rw other (ground (arith, lookup-remove k j m, u.0), remove-IsUnique k m u.1)
  ]

  pub retain_entries-IsUnique :
      (keep : Text → V → Bool) (m : Assoc V) → IsUnique m → IsUnique (retain_entries keep m)
  unfolding retain_entries
  retain_entries-IsUnique keep [] u = u
  retain_entries-IsUnique keep ((j, w) ∷ m) u = elim (Bool-cases (keep j w)) [
    | inl stays ↦ rw stays (lookup-retain_none keep j m u.0, retain_entries-IsUnique keep m u.1)
    | inr goes ↦ rw goes (retain_entries-IsUnique keep m u.1)
  ]

-- A property of every entry.
abbrev pub AllValues {ℓ κ} : {V : Type ℓ} → (Text → V → Type κ) → Assoc V → Type κ
AllValues P [] = Unit
AllValues P ((k, v) ∷ m) = P k v × AllValues P m

module _ {ℓ κ} {V : Type ℓ} (P : Text → V → Type κ) where
  pub AllValues-lookup :
      (k : Text) (m : Assoc V) {v : V} → AllValues P m → lookup k m ≡ some v → P k v
  unfolding lookup
  AllValues-lookup k [] h e = cc
  AllValues-lookup k ((j, w) ∷ m) {v} h e = elim (Bool-cases (text_eq j k)) [
    | inl same ↦
        let p : j ≡ k = (text_eq_iff j k).0 same in let q : w ≡ v = ground arith in subst₂ P p q h.0
    | inr other ↦ AllValues-lookup k m h.1 (ground arith)
  ]

  pub AllValues-insert :
      (k : Text) (v : V) (m : Assoc V) → P k v → AllValues P m → AllValues P (insert k v m)
  unfolding insert
  AllValues-insert k v [] p h = (p, tt)
  AllValues-insert k v ((j, w) ∷ m) p h = elim (Bool-cases (text_eq j k)) [
    | inl same ↦ rw same (subst (λ i. P i v) (sym ((text_eq_iff j k).0 same)) p, h.1)
    | inr other ↦ rw other (h.0, AllValues-insert k v m p h.1)
  ]

  pub AllValues-remove : (k : Text) (m : Assoc V) → AllValues P m → AllValues P (remove k m)
  unfolding remove
  AllValues-remove k [] h = h
  AllValues-remove k ((j, w) ∷ m) h = elim (Bool-cases (text_eq j k)) [
    | inl same ↦ rw same (AllValues-remove k m h.1)
    | inr other ↦ rw other (h.0, AllValues-remove k m h.1)
  ]

  pub AllValues-retain_entries :
      (keep : Text → V → Bool) (m : Assoc V) → AllValues P m → AllValues P (retain_entries keep m)
  unfolding retain_entries
  AllValues-retain_entries keep [] h = h
  AllValues-retain_entries keep ((j, w) ∷ m) h = elim (Bool-cases (keep j w)) [
    | inl stays ↦ rw stays (h.0, AllValues-retain_entries keep m h.1)
    | inr goes ↦ rw goes (AllValues-retain_entries keep m h.1)
  ]
