-- ===== src/WorkingSet/Tests.antt =====
-- A record behind one with two decisions.
use vexcoder.Prelude.{◌≡◌, List, [], ◌∷◌, ◌++◌, All, codes, Text}
use vexcoder.WorkingSet.Record.{
  RecordedDecision, WorkingSetRecord, new_record, retain_referenced_decisions,
}
use vexcoder.WorkingSet.Kept.{Covered, retain_referenced_decisions-Covered}

abbrev decision : Text → Text → RecordedDecision
decision why reference = record { rationale = why; source_reference = reference }

abbrev before : WorkingSetRecord
before = record (new_record 3 (codes "ship")) {
  decisions = decision (codes "use a map") (codes "m-1") ∷ decision (codes "later") [] ∷ [];
}

abbrev now : WorkingSetRecord
now = record (new_record 8 []) { decisions = decision (codes "rename") (codes "m-2") ∷ [] }

retain_referenced_decisions-Covered_example :
    ((extra : List RecordedDecision) × ((retain_referenced_decisions now before).decisions
        ≡ now.decisions ++ extra))
    × All (Covered (retain_referenced_decisions now before).decisions) before.decisions
    × (retain_referenced_decisions (retain_referenced_decisions now before) before
        ≡ retain_referenced_decisions now before)
retain_referenced_decisions-Covered_example = retain_referenced_decisions-Covered now before
