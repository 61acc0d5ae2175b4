-- ===== src/WorkingSet/Record.antt =====
-- `WorkingSetRecord`, what it keeps of the record before it, and its text for the prompt
-- (src/runtime/task_state/working_set.rs). A path is its text; saving and loading are left out.
use vexcoder.Prelude.{
  ℕ, Bool, List, [], ◌∷◌, ◌++◌, any, is_empty, if◌then◌else◌, Text, codes, text_eq,
}
use vexcoder.Lines.{trim, trim_start, trim_end}

pub record RecordedDecision : Type 0 where
  pub rationale : Text
  pub source_reference : Text

pub record PathChange : Type 0 where
  pub path : Text
  pub git_identity : Text

pub record WorkingSetRecord : Type 0 where
  pub schema_version : ℕ
  pub updated_at : ℕ
  pub objective : Text
  pub constraints : List Text
  pub decisions : List RecordedDecision
  pub changed_paths : List PathChange
  pub verified_results : List Text
  pub unresolved_questions : List Text
  pub active_plan : Text
  pub next_action : Text

abbrev working_set_schema_version : ℕ
working_set_schema_version = 1

-- `WorkingSetRecord::new` at a time
abbrev pub new_record : ℕ → Text → WorkingSetRecord
new_record now objective = record {
  schema_version = working_set_schema_version;
  updated_at = now;
  objective = objective;
  constraints = [];
  decisions = [];
  changed_paths = [];
  verified_results = [];
  unresolved_questions = [];
  active_plan = [];
  next_action = [];
}

unfoldable pub is_blank : Text → Bool
unfolding trim_start trim_end
is_blank s = is_empty (trim s)

unfoldable pub retain_durable_objective : WorkingSetRecord → WorkingSetRecord → WorkingSetRecord
unfolding is_blank
retain_durable_objective s prior =
    if is_blank prior.objective then s else record s { objective = prior.objective }

abbrev pub has_reference : Text → List RecordedDecision → Bool
has_reference reference decisions =
    any (λ (d : RecordedDecision). text_eq d.source_reference reference) decisions

-- The body of the loop
unfoldable pub keep_decision : RecordedDecision → List RecordedDecision → List RecordedDecision
unfolding is_blank text_eq
keep_decision decision decisions =
    if is_blank decision.source_reference
    then decisions
    else if has_reference decision.source_reference decisions
    then decisions
    else decisions ++ (decision ∷ [])

unfoldable pub keep_decisions :
    List RecordedDecision → List RecordedDecision → List RecordedDecision
unfolding keep_decision
keep_decisions [] decisions = decisions
keep_decisions (d ∷ prior) decisions = keep_decisions prior (keep_decision d decisions)

unfoldable pub retain_referenced_decisions : WorkingSetRecord → WorkingSetRecord → WorkingSetRecord
unfolding keep_decisions
retain_referenced_decisions s prior = record s {
  decisions = keep_decisions prior.decisions s.decisions;
}

abbrev push_labeled_line : Text → Text → Text
push_labeled_line label value =
    if is_empty (trim value) then [] else label ++ (codes ": " ++ (trim value ++ codes "\n"))

abbrev list_lines : List Text → Text
list_lines [] = []
list_lines (v ∷ values) =
    let rest = list_lines values in
    if is_empty (trim v) then rest else codes "- " ++ (trim v ++ (codes "\n" ++ rest))

abbrev push_string_list : Text → List Text → Text
push_string_list label values =
    if is_empty (list_lines values) then [] else label ++ (codes ":\n" ++ list_lines values)

-- A line with a note in brackets, if there is one
abbrev noted_line : Text → Text → Text
noted_line text note =
    codes "- "
    ++ (text
        ++ ((if is_empty (trim note) then [] else codes " (" ++ (trim note ++ codes ")"))
            ++ codes "\n"))

abbrev decision_lines : List RecordedDecision → Text
decision_lines [] = []
decision_lines (d ∷ ds) = noted_line (trim d.rationale) d.source_reference ++ decision_lines ds

abbrev change_lines : List PathChange → Text
change_lines [] = []
change_lines (c ∷ cs) = noted_line c.path c.git_identity ++ change_lines cs

abbrev titled : Text → Text → Text
titled title lines = if is_empty lines then [] else title ++ lines

unfoldable pub as_prompt_block : WorkingSetRecord → Text
unfolding trim_start trim_end
as_prompt_block s =
    codes "[working-set record: start]\n"
    ++ (push_labeled_line (codes "objective") s.objective
        ++ (push_string_list (codes "constraints") s.constraints
            ++ (titled (codes "decisions:\n") (decision_lines s.decisions)
                ++ (titled (codes "changed_paths:\n") (change_lines s.changed_paths)
                    ++ (push_string_list (codes "verified_results") s.verified_results
                        ++ (push_string_list (codes "unresolved_questions") s.unresolved_questions
                            ++ (push_labeled_line (codes "active_plan") s.active_plan
                                ++ (push_labeled_line (codes "next_action") s.next_action
                                    ++ codes "[working-set record: end]"))))))))
