-- ===== src/PrefixCache/Tests.antt =====
-- A cache of two prefixes that a third one enters.
use vexcoder.Prelude.{◌≡◌, refl, [], ◌∷◌, arith, codes, text_eq}
use vexcoder.Prelude.Assoc.{lookup}
use vexcoder.PrefixCache.Manager.{MultiplexPrefixManager, insert_prefix}
use vexcoder.PrefixCache.Fifo.{IsValid, push_bounded, insert_prefix-Refines}

abbrev full : MultiplexPrefixManager
full = record {
  capacity = 2;
  entries = (codes "v2-a", 1 ∷ []) ∷ (codes "v2-b", 2 ∷ []) ∷ [];
  insertion_order = codes "v2-a" ∷ codes "v2-b" ∷ [];
}

full-IsValid : IsValid full
unfolding lookup text_eq
full-IsValid = (refl, (refl, (refl, tt)), omega arith, omega arith)

Refines_example :
    ((insert_prefix full (codes "v2-c") (3 ∷ [])).entries
      ≡ push_bounded 2 (codes "v2-c") (3 ∷ []) full.entries)
    × IsValid (insert_prefix full (codes "v2-c") (3 ∷ []))
Refines_example = insert_prefix-Refines full (codes "v2-c") (3 ∷ []) full-IsValid
