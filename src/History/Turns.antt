-- ===== src/History/Turns.antt =====
-- The turns that compaction with a summary keeps, and the bound on a shortened text
-- (src/state/conversation/history.rs).
use vexcoder.Prelude.{
  ℕ, zero, suc, ◌+◌, ◌-◌, ◌/◌, ◌≤◌, ◌<◌, max, ◌≡◌, refl, ◌∙◌, Bool, inl, inr, Option, none, some,
  List, [], ◌∷◌, ◌++◌, arith, ◌==◌, leb, leb→le, leb→lt, if_cases, Bool-cases, length, take, drop,
  retain, length-drop, length-take, length-append, subst, Text,
}
use vexcoder.History.Message.{ApiMessage, starts_turn}
use vexcoder.History.Compact.{
  visit, scan_back, boundary_of, compact_with_summary, summarise_first, truncate_for_history,
  omitted, cut_at,
}

-- What the search from the back found in the messages that begin at index `i`.
abbrev Found : (ApiMessage → Bool) → ℕ → List ApiMessage → ℕ → ℕ × Option ℕ → Type 0
Found counted keep ms i (count, none) = (count ≡ length (retain counted ms)) × (count < max keep 1)
Found counted keep ms i (count, some b) =
    (k : ℕ) × (b ≡ i + k)
    × (k < length ms)
    × (length (retain counted (drop k ms)) ≡ max keep 1)
    × (length (retain counted (drop (suc k) ms)) < max keep 1)

visit-Found :
    (counted : ApiMessage → Bool) (keep : ℕ) (m : ApiMessage) (rest : List ApiMessage) (i : ℕ)
    (found : ℕ × Option ℕ)
    → Found counted keep rest (i + 1) found
    → Found counted keep (m ∷ rest) i (visit counted keep m i found)
unfolding visit
visit-Found counted keep m rest i (count, some b) (k, at, low, many, before) =
    (suc k, omega (arith, at), omega (arith, low), many, before)
visit-Found counted keep m rest i (count, none) (all, few) = elim (Bool-cases (counted m)) [
  | inr n ↦ rw (n, n) (all, few)
  | inl y ↦ elim (Bool-cases (leb keep (count + 1))) [
    | inl enough ↦
        rw (y, enough)
          (
            0,
            omega arith,
            omega arith,
            rw y (omega (arith, all, few, leb→le keep (count + 1) enough)),
            omega (arith, all, few),
          )
    | inr more ↦ rw (y, more, y) (omega (arith, all), omega (arith, leb→lt keep (count + 1) more))
  ]
]

scan_back-Found :
    (counted : ApiMessage → Bool) (keep : ℕ) (ms : List ApiMessage) (i : ℕ)
    → Found counted keep ms i (scan_back counted keep ms i)
unfolding scan_back
scan_back-Found counted keep [] i = (refl, omega arith)
scan_back-Found counted keep (m ∷ rest) i =
    visit-Found counted keep m rest i (scan_back counted keep rest (i + 1))
      (scan_back-Found counted keep rest (i + 1))

length-summarise_first :
    (summary : Text) (ms : List ApiMessage) → length (summarise_first summary ms) ≡ length ms
unfolding summarise_first
length-summarise_first summary [] = refl
length-summarise_first summary (m ∷ rest) = ground arith

-- Only the first message is changed.
drop-summarise_first :
    (summary : Text) (ms : List ApiMessage) → drop 1 (summarise_first summary ms) ≡ drop 1 ms
unfolding summarise_first
drop-summarise_first summary [] = refl
drop-summarise_first summary (m ∷ rest) = ground arith

drop_one-drop : (n : ℕ) (ms : List ApiMessage) → drop 1 (drop n ms) ≡ drop (suc n) ms
drop_one-drop zero ms = refl
drop_one-drop (suc n) [] = refl
drop_one-drop (suc n) (m ∷ rest) = drop_one-drop n rest

-- Behind the first message no more are kept.
length-retain-drop :
    (p : ApiMessage → Bool) (ms : List ApiMessage)
    → length (retain p (drop 1 ms)) ≤ length (retain p ms)
length-retain-drop p [] = omega arith
length-retain-drop p (m ∷ rest) = elim (Bool-cases (p m)) [
  | inl y ↦ rw y (omega arith)
  | inr n ↦ rw n (omega arith)
]

-- What compaction leaves: nothing is taken out, and too few turns start behind the first message;
-- or the messages from some place on, of which the first one gets the summary, and just `keep`
-- turns (at least one) start among them, one of them at that first message.
abbrev pub Compacted : List ApiMessage → ℕ → Text → List ApiMessage × ℕ → Type 0
Compacted ms keep summary (kept, zero) =
    (kept ≡ ms) × (length (retain starts_turn (drop 1 ms)) < max keep 1)
Compacted ms keep summary (kept, suc b) =
    (suc b < length ms)
    × (length kept + suc b ≡ length ms)
    × (drop 1 kept ≡ drop (suc (suc b)) ms)
    × (kept ≡ summarise_first summary (drop (suc b) ms))
    × (length (retain starts_turn (drop (suc b) ms)) ≡ max keep 1)
    × (length (retain starts_turn (drop (suc (suc b)) ms)) < max keep 1)

cut_at-Compacted :
    (ms : List ApiMessage) (keep : ℕ) (summary : Text) (found : ℕ × Option ℕ)
    → Found starts_turn keep ms 0 found
    → Compacted ms keep summary (cut_at ms summary found.1)
cut_at-Compacted ms keep summary (count, none) (all, few) =
    (refl, omega (arith, all, few, length-retain-drop starts_turn ms))
cut_at-Compacted ms keep summary (count, some zero) (k, at, low, many, before) =
    let e : k ≡ 0 = omega (arith, at) in
    (refl, subst (λ (n : ℕ). length (retain starts_turn (drop (suc n) ms)) < max keep 1) e before)
cut_at-Compacted ms keep summary (count, some (suc b)) (k, at, low, many, before) =
    let e : k ≡ suc b = omega (arith, at) in
    (
      omega (arith, low, e),
      omega
          (arith, length-summarise_first summary (drop (suc b) ms), length-drop (suc b) ms, low, e),
      drop-summarise_first summary (drop (suc b) ms) ∙ drop_one-drop (suc b) ms,
      refl,
      subst (λ (n : ℕ). length (retain starts_turn (drop n ms)) ≡ max keep 1) e many,
      subst (λ (n : ℕ). length (retain starts_turn (drop (suc n) ms)) < max keep 1) e before,
    )

-- Compaction to `keep` turns (one, where `keep` is zero) leaves the history as it is just when fewer
-- turns than that start behind its first message. Else it takes the given number of messages from
-- its front, fewer than all, and keeps the others as they are, but for the first of them, which
-- gets the summary where one is given and its content is a plain text; of the messages kept just
-- that many start a turn in the old history, and fewer of those behind the first one.
pub compact_with_summary-Compacted :
    (ms : List ApiMessage) (keep : ℕ) (summary : Text)
    → Compacted ms keep summary (compact_with_summary ms keep summary)
unfolding compact_with_summary boundary_of
compact_with_summary-Compacted ms keep summary =
    cut_at-Compacted ms keep summary (scan_back starts_turn keep ms 0)
      (scan_back-Found starts_turn keep ms 0)

-- A shortened text has at most the allowed number of characters.
pub truncate_for_history-length :
    (text : Text) (most : ℕ) → length (truncate_for_history text most) ≤ most
unfolding truncate_for_history
truncate_for_history-length text most =
    let total = length text in
    let indicator = omitted (total - most) in
    let available = most - length indicator in
    let keep_head = available / 2 in
    let back = drop (total - (available - keep_head)) text in
    if_cases (λ (t : Text). length t ≤ most) (most == 0) _ _ (λ e. omega arith)
      (λ _.
        if_cases (λ (t : Text). length t ≤ most) (leb total most) _ _ (λ e. leb→le total most e)
          (λ _.
            if_cases (λ (t : Text). length t ≤ most) (leb most (length indicator)) _ _
              (λ e. omega (arith, length-take most text))
              (λ e. omega (
                arith,
                leb→lt most (length indicator) e,
                length-append (take keep_head text) (indicator ++ back),
                length-append indicator back,
                length-take keep_head text,
                length-drop (total - (available - keep_head)) text,
              ))))
