-- ===== src/History/Size.antt =====
-- What pruning keeps of the history (src/state/conversation/history.rs).
use vexcoder.Prelude.{
  ℕ, zero, suc, ◌+◌, ◌-◌, true, false, sym, ap, ◌∙◌, subst, take, retain, ◌≤◌, ◌<◌, min, max, ◌&&◌,
  ◌⊎◌, ◌≡◌, refl, Bool, inl, inr, List, [], ◌∷◌, arith, ◌==◌, leb, leb→le, leb→lt, if◌then◌else◌,
  Bool-cases, length, drop, length-drop,
}
use vexcoder.History.Message.{ApiMessage, starts_turn}
use vexcoder.History.Prune.{find_start, near_anchor, prune_start, prune_message_history_preserving}
use vexcoder.History.Window.{find_start_here, find_start-FirstTurn}

-- The last step of the choice of a start, behind the search.
settle :
    (n t first found : ℕ)
    → t < n
    → (first ≡ t) ⊎ (found ≤ t)
    → let clamped = max found t in
      let start = if leb n clamped then min first (n - 1) else clamped in (t ≤ start) × (start < n)
settle n t first found h (inl e) = ground arith
settle n t first found h (inr e) = ground arith

pub prune_start-bounds :
    (ms : List ApiMessage) (most i : ℕ)
    → 1 ≤ most
    → most < length ms
    → (length ms - most ≤ prune_start ms most i) × (prune_start ms most i < length ms)
unfolding prune_start
prune_start-bounds ms most i h k =
    let t = length ms - most in
    let anchored = near_anchor ms most i in
    let first = if anchored then i else t in
    let stop : ℕ → Bool = λ j. anchored && j == i in
    let found = find_start stop (drop first ms) first in
    let close : (first ≡ t) ⊎ (found ≤ t) = elim (Bool-cases anchored) [
      | inl e ↦ inr (
          let e2 : found ≡ first = find_start_here stop (drop first ms) first (ground arith) in
          ground (arith, e2))
      | inr e ↦ inl (rw e)
    ] in
    settle (length ms) t first found (omega arith) close

-- Message `k` starts a turn, and none of those before it that are within the size does.
abbrev pub AtTurn : List ApiMessage → ℕ → ℕ → Type 0
AtTurn ms most k =
    (m : ApiMessage) × (rest : List ApiMessage) × (drop k ms ≡ m ∷ rest)
    × (starts_turn m ≡ true)
    × (retain starts_turn (take (k - (length ms - most)) (drop (length ms - most) ms)) ≡ [])

-- Where the kept messages begin: with as many as may be kept, or else at the first of those that
-- starts a turn.
abbrev pub Opens : List ApiMessage → ℕ → ℕ → Type 0
Opens ms most k = (k ≡ length ms - most) ⊎ AtTurn ms most k

drop_empty : (n : ℕ) → drop {A = ApiMessage} n [] ≡ []
drop_empty zero = refl
drop_empty (suc n) = refl

drop-drop : (t k : ℕ) (ms : List ApiMessage) → drop k (drop t ms) ≡ drop (t + k) ms
drop-drop zero k ms = let e : 0 + k ≡ k = omega arith in rw e
drop-drop (suc t) k [] = drop_empty k ∙ sym (drop_empty (suc t + k))
drop-drop (suc t) k (m ∷ rest) =
    let e : suc t + k ≡ suc (t + k) = omega arith in rw e (drop-drop t k rest)

-- The last step keeps a place that was found among the messages.
settle-found :
    (n t found : ℕ)
    → t ≤ found
    → found < n
    → (let clamped = max found t in if leb n clamped then min t (n - 1) else clamped) ≡ found
settle-found n t found h k = ground arith

settle-past :
    (n t found : ℕ)
    → t < n
    → n ≤ found
    → (let clamped = max found t in if leb n clamped then min t (n - 1) else clamped) ≡ t
settle-past n t found h k = ground arith

settle-anchored :
    (n t i found : ℕ)
    → t < n
    → i < t
    → found ≡ i
    → (let clamped = max found t in if leb n clamped then min i (n - 1) else clamped) ≡ t
settle-anchored n t i found h k e = ground arith

prune_start-Opens :
    (ms : List ApiMessage) (most i : ℕ)
    → 1 ≤ most
    → most < length ms
    → Opens ms most (prune_start ms most i)
unfolding prune_start
prune_start-Opens ms most i h long =
    let n = length ms in
    let t = n - most in
    elim (Bool-cases (near_anchor ms most i)) [
      | inl e ↦
          let before : i < t = ground (arith, e) in
          inl (
            rw e (
              settle-anchored n t i (find_start (λ j. true && j == i) (drop i ms) i) (omega arith)
                before (find_start_here (λ j. true && j == i) (drop i ms) i (ground arith))))
      | inr e ↦ rw e (elim (find_start-FirstTurn (λ j. false && j == i) (drop t ms) t (λ j. refl)) [
        | inl past ↦ inl (settle-past n t _ (omega arith) (omega (arith, past, length-drop t ms)))
        | inr (k, m, rest, at, here, y, none_before) ↦
            let inside : t + k < n =
              omega (arith, length-drop k (drop t ms), length-drop t ms, ap length here) in
            let start = settle-found n t _ (omega (arith, at)) (omega (arith, at, inside)) ∙ at in
            let front : (t + k) - t ≡ k = omega arith in
            inr (
              subst (AtTurn ms most) (sym start)
                (m, rest, sym (drop-drop t k ms) ∙ here, y, rw front none_before))
      ])
    ]

-- Pruning to a size of at least one message keeps a suffix of the history, within the size and, when
-- the history has a message, with its last one. It keeps all of a history that fits, and of a longer
-- one just so many messages, or those of them from the first one on that starts a turn.
pub prune_message_history_preserving-Keeps :
    (ms : List ApiMessage) (most i : ℕ)
    → 1 ≤ most
    → let kept = prune_message_history_preserving ms most i in
      (k : ℕ) × (kept.0 ≡ drop k ms)
      × Opens ms most k
      × ((length ms ≡ 0) ⊎ (k < length ms))
      × (length kept.0 ≤ most)
      × (length ms ≤ most → kept.0 ≡ ms)
unfolding prune_message_history_preserving
prune_message_history_preserving-Keeps [] most i h =
    (0, refl, inl (omega arith), inl refl, omega arith, λ _. refl)
prune_message_history_preserving-Keeps (m ∷ rest) most i h =
    elim (Bool-cases (leb (length (m ∷ rest)) most)) [
      | inl fits ↦ rw fits (
        0,
        refl,
        inl (omega (arith, leb→le (length (m ∷ rest)) most fits)),
        inr (omega arith),
        leb→le (length (m ∷ rest)) most fits,
        λ _. refl,
      )
      | inr long ↦
          let start = prune_start (m ∷ rest) most i in
          let b = prune_start-bounds (m ∷ rest) most i h (leb→lt (length (m ∷ rest)) most long) in
          rw long (
            start,
            refl,
            prune_start-Opens (m ∷ rest) most i h (leb→lt (length (m ∷ rest)) most long),
            inr b.1,
            omega (arith, b, length-drop start (m ∷ rest)),
            λ short. absurd (omega (arith, leb→lt (length (m ∷ rest)) most long)),
          )
    ]
