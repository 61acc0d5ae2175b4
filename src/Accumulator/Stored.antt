-- ===== src/Accumulator/Stored.antt =====
-- Which part of a delta is stored (src/runtime/delta_accumulator.rs).
use vexcoder.Prelude.{
  ℕ, ◌+◌, ◌≤◌, ◌<◌, true, false, ◌≡◌, refl, sym, ap, ◌∙◌, inl, inr, [], ◌∷◌, ◌++◌, arith,
  append-nil, append_assoc, ltb, ltb→le, ltb→lt, Bool-cases, Text, len_utf8, byte_len,
  byte_len-append, saturating_add,
}
use vexcoder.Accumulator.Ops.{push_chars}
use vexcoder.Accumulator.State.{max_stored_partial_bytes}

-- How `incoming` was split: `taken` was stored behind `stored`, and `left` was not.
pub record Stores (stored incoming : Text) : Type 0 where
  pub taken : Text
  pub left : Text
  pub splits : incoming ≡ taken ++ left
  pub result : (push_chars stored incoming).0 ≡ stored ++ taken
  pub fits : byte_len (stored ++ taken) ≤ max_stored_partial_bytes
  pub all_taken : (push_chars stored incoming).1 ≡ false → left ≡ []
  pub next_too_long :
      (push_chars stored incoming).1 ≡ true
      → (ch : ℕ) × (rest : Text) × (left ≡ ch ∷ rest)
        × (max_stored_partial_bytes < byte_len (stored ++ taken) + len_utf8 ch)

-- The saturated sum passes the bound just when the sum does.
saturated-ltb :
    (n c : ℕ)
    → ltb max_stored_partial_bytes (saturating_add n c) ≡ ltb max_stored_partial_bytes (n + c)
unfolding saturating_add
saturated-ltb n c = ground arith

-- Behind a stored text within the bound, the loop stores the longest part of the delta that fits,
-- character by character.
pub push_chars-Stores :
    (stored incoming : Text) → byte_len stored ≤ max_stored_partial_bytes → Stores stored incoming
unfolding push_chars
push_chars-Stores stored [] h = record {
  taken = [];
  left = [];
  splits = refl;
  result = sym (append-nil stored);
  fits = rw append-nil h;
  all_taken = λ _. refl;
  next_too_long = λ e. cc;
}
push_chars-Stores stored (ch ∷ rest) h =
    elim (Bool-cases (ltb max_stored_partial_bytes (byte_len stored + len_utf8 ch))) [
      | inl full ↦
          let full' = saturated-ltb (byte_len stored) (len_utf8 ch) ∙ full in
          record {
            taken = [];
            left = ch ∷ rest;
            splits = refl;
            result = rw (full', append-nil);
            fits = rw append-nil h;
            all_taken = λ e. ground arith;
            next_too_long = λ e. (ch, rest, refl, rw append-nil (ltb→lt _ _ full));
          }
      | inr room ↦
          let room' = saturated-ltb (byte_len stored) (len_utf8 ch) ∙ room in
          let p = push_chars-Stores (stored ++ ch ∷ []) rest (grows (ltb→le _ _ room)) in
          record {
            taken = ch ∷ p.taken;
            left = p.left;
            splits = ap (◌∷◌ ch) p.splits;
            result = rw room' (p.result ∙ append_assoc stored (ch ∷ []) p.taken);
            fits = rw append_assoc at p.fits;
            all_taken = rw room' p.all_taken;
            next_too_long = rw (room', ← append_assoc stored (ch ∷ []) p.taken) p.next_too_long;
          }
    ]
  where
    grows :
        byte_len stored + len_utf8 ch ≤ max_stored_partial_bytes
        → byte_len (stored ++ ch ∷ []) ≤ max_stored_partial_bytes
    grows le = rw byte_len-append (unfold byte_len in omega arith)
