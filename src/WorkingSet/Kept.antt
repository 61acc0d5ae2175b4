-- ===== src/WorkingSet/Kept.antt =====
-- What a record keeps of the one before it (src/runtime/task_state/working_set.rs).
use vexcoder.Prelude.{
  ◌≡◌, refl, sym, ap, subst, ◌∙◌, ◌⊎◌, inl, inr, true, Bool-cases, List, [], ◌∷◌, ◌++◌, append-nil,
  append_assoc, All, Text, text_eq, text_eq_refl,
}
use vexcoder.WorkingSet.Record.{
  RecordedDecision, WorkingSetRecord, is_blank, has_reference, keep_decision, keep_decisions,
  retain_referenced_decisions,
}

-- The decision has no reference, or one that the decisions have.
abbrev pub Covered : List RecordedDecision → RecordedDecision → Type 0
Covered decisions d =
    (is_blank d.source_reference ≡ true) ⊎ (has_reference d.source_reference decisions ≡ true)

has_reference-append :
    (r : Text) (xs ys : List RecordedDecision)
    → has_reference r xs ≡ true
    → has_reference r (xs ++ ys) ≡ true
has_reference-append r [] ys h = cc
has_reference-append r (x ∷ xs) ys h = elim (Bool-cases (text_eq x.source_reference r)) [
  | inl here ↦ rw here refl
  | inr later ↦ rw later (has_reference-append r xs ys (sym (rw later refl) ∙ h))
]

has_reference-last :
    (d : RecordedDecision) (xs : List RecordedDecision)
    → has_reference d.source_reference (xs ++ (d ∷ [])) ≡ true
has_reference-last d [] = rw (text_eq_refl d.source_reference) refl
has_reference-last d (x ∷ xs) =
    let ih = has_reference-last d xs in
    elim (Bool-cases (text_eq x.source_reference d.source_reference)) [
      | inl here ↦ rw here refl
      | inr later ↦ rw later ih
    ]

-- A step adds at the end, and covers its decision.
keep_decision-Covered :
    (d : RecordedDecision) (xs : List RecordedDecision)
    → (extra : List RecordedDecision) × (keep_decision d xs ≡ xs ++ extra)
      × Covered (keep_decision d xs) d
unfolding keep_decision
keep_decision-Covered d xs = elim (Bool-cases (is_blank d.source_reference)) [
  | inl blank ↦ ([], rw blank (sym (append-nil xs)), inl blank)
  | inr filled ↦ elim (Bool-cases (has_reference d.source_reference xs)) [
    | inl there ↦ ([], rw (filled, there) (sym (append-nil xs)), inr (rw (filled, there) there))
    | inr absent ↦
        (d ∷ [], rw (filled, absent) refl, inr (rw (filled, absent) (has_reference-last d xs)))
  ]
]

Covered-append :
    (d : RecordedDecision) (xs ys : List RecordedDecision) → Covered xs d → Covered (xs ++ ys) d
Covered-append d xs ys (inl blank) = inl blank
Covered-append d xs ys (inr there) = inr (has_reference-append d.source_reference xs ys there)

keep_decisions-append :
    (prior xs : List RecordedDecision)
    → (extra : List RecordedDecision) × (keep_decisions prior xs ≡ xs ++ extra)
unfolding keep_decisions
keep_decisions-append [] xs = ([], sym (append-nil xs))
keep_decisions-append (d ∷ prior) xs =
    let (one, e, c) = keep_decision-Covered d xs in
    let (more, f) = keep_decisions-append prior (keep_decision d xs) in
    (one ++ more, f ∙ (ap (λ l. l ++ more) e ∙ append_assoc xs one more))

keep_decisions-Covered :
    (prior xs : List RecordedDecision) → All (Covered (keep_decisions prior xs)) prior
unfolding keep_decisions
keep_decisions-Covered [] xs = tt
keep_decisions-Covered (d ∷ prior) xs =
    let (one, e, c) = keep_decision-Covered d xs in
    let (more, f) = keep_decisions-append prior (keep_decision d xs) in
    (
      subst (λ l. Covered l d) (sym f) (Covered-append d (keep_decision d xs) more c),
      keep_decisions-Covered prior (keep_decision d xs),
    )

keep_decision_same :
    (d : RecordedDecision) (xs : List RecordedDecision) → Covered xs d → keep_decision d xs ≡ xs
unfolding keep_decision
keep_decision_same d xs (inl blank) = rw blank refl
keep_decision_same d xs (inr there) = elim (Bool-cases (is_blank d.source_reference)) [
  | inl blank ↦ rw blank refl
  | inr filled ↦ rw (filled, there) refl
]

keep_decisions_same :
    (prior xs : List RecordedDecision) → All (Covered xs) prior → keep_decisions prior xs ≡ xs
unfolding keep_decisions
keep_decisions_same [] xs h = refl
keep_decisions_same (d ∷ prior) xs h =
    ap (keep_decisions prior) (keep_decision_same d xs h.0) ∙ keep_decisions_same prior xs h.1

-- The record keeps all its own decisions, in their order and in front; behind it every decision of
-- the record before that has a reference is there by its reference; and keeping them a second time
-- changes nothing.
pub retain_referenced_decisions-Covered :
    (s prior : WorkingSetRecord)
    → ((extra : List RecordedDecision) × ((retain_referenced_decisions s prior).decisions
          ≡ s.decisions ++ extra))
      × All (Covered (retain_referenced_decisions s prior).decisions) prior.decisions
      × (retain_referenced_decisions (retain_referenced_decisions s prior) prior
          ≡ retain_referenced_decisions s prior)
unfolding retain_referenced_decisions
retain_referenced_decisions-Covered s prior = (
  keep_decisions-append prior.decisions s.decisions,
  keep_decisions-Covered prior.decisions s.decisions,
  ap (λ l. record s { decisions = l })
      (keep_decisions_same prior.decisions (keep_decisions prior.decisions s.decisions)
        (keep_decisions-Covered prior.decisions s.decisions)),
)
