-- ===== src/Approval/Rules.antt =====
-- What a policy file decides (src/runtime/approval.rs).
use vexcoder.Prelude.{
  ◌≡◌, refl, sym, ap, ◌∙◌, Option-cases, ◌⊎◌, inl, inr, true, Option, none, some, List, [], ◌∷◌,
  arith, map, Text, codes, text_eq, if◌then◌else◌,
}
use vexcoder.Lines.{trim, ascii_lowercase}
use vexcoder.Approval.Policy.{
  Capability, read_file, write_file, apply_patch, run_command, mcp_tool, network, browser,
  PolicyAction, allow, prompt, once, FileApprovalPolicy, CapabilityTable, default_rules,
  default_policy, parse_toml_value, load_entry, load_entries, insert_rule, entries_of,
  load_from_table, evaluate, or_prompt, same,
}

-- The table's text for a capability, read on its own.
abbrev pub text_for : CapabilityTable → Capability → Option Text
text_for t read_file = t.read_file_text
text_for t write_file = t.write_file_text
text_for t apply_patch = t.apply_patch_text
text_for t run_command = t.run_command_text
text_for t mcp_tool = t.mcp_tool_text
text_for t network = t.network_text
text_for t browser = t.browser_text

abbrev pub default_action : Capability → PolicyAction
default_action read_file = allow
default_action _ = prompt once

-- The default, where the text is absent or no word of the policy language.
abbrev pub decided : PolicyAction → Option Text → PolicyAction
decided otherwise none = otherwise
decided otherwise (some text) = known (parse_toml_value text)
  where
    known : Option PolicyAction → PolicyAction
    known none = otherwise
    known (some action) = action

rules-load_entry :
    (p : FileApprovalPolicy) (c d : Capability) (t : Option Text)
    → or_prompt ((load_entry p (c, t)).rules d)
      ≡ (if same c d then decided (or_prompt (p.rules d)) t else or_prompt (p.rules d))
unfolding load_entry insert_rule
rules-load_entry p c d none = ground arith
rules-load_entry p c d (some text) = ground arith

-- The entries of a capability, one behind the other
abbrev decided_by : Capability → List (Capability × Option Text) → PolicyAction → PolicyAction
decided_by d [] action = action
decided_by d ((c, t) ∷ es) action = decided_by d es (if same c d then decided action t else action)

rules-load_entries :
    (es : List (Capability × Option Text)) (p : FileApprovalPolicy) (d : Capability)
    → or_prompt ((load_entries p es).rules d) ≡ decided_by d es (or_prompt (p.rules d))
rules-load_entries [] p d = refl
rules-load_entries ((c, t) ∷ es) p d =
    rules-load_entries es (load_entry p (c, t)) d ∙ ap (decided_by d es) (rules-load_entry p c d t)

-- A capability is decided by its own entry in the policy file, and by the default if it has no
-- entry or one that is no word of the policy language.
pub evaluate-load_from_table :
    (t : CapabilityTable) (c : Capability)
    → evaluate (load_from_table t) c ≡ decided (default_action c) (text_for t c)
unfolding evaluate load_from_table default_policy default_rules
evaluate-load_from_table t read_file = rules-load_entries (entries_of t) default_policy read_file
evaluate-load_from_table t write_file = rules-load_entries (entries_of t) default_policy write_file
evaluate-load_from_table t apply_patch =
    rules-load_entries (entries_of t) default_policy apply_patch
evaluate-load_from_table t run_command =
    rules-load_entries (entries_of t) default_policy run_command
evaluate-load_from_table t mcp_tool = rules-load_entries (entries_of t) default_policy mcp_tool
evaluate-load_from_table t network = rules-load_entries (entries_of t) default_policy network
evaluate-load_from_table t browser = rules-load_entries (entries_of t) default_policy browser

abbrev pub word_of : Text → Text
word_of text = map ascii_lowercase (trim text)

parse_toml_value-allow :
    (text : Text)
    → parse_toml_value text ≡ some allow
    → text_eq (word_of text) (codes "allow") ≡ true
unfolding parse_toml_value
parse_toml_value-allow text h = ground arith

decided-allow :
    (action : PolicyAction) (o : Option Text)
    → decided action o ≡ allow
    → (action ≡ allow)
      ⊎ ((text : Text) × (o ≡ some text) × (text_eq (word_of text) (codes "allow") ≡ true))
decided-allow action none h = inl h
decided-allow action (some text) h = elim (Option-cases (parse_toml_value text)) [
  | inl e ↦ inl (ground arith)
  | inr (a, e) ↦ inr (text, refl, parse_toml_value-allow text (ground arith))
]

-- What a loaded policy allows unasked is allowed by default, or its entry in the policy file is
-- the word `allow`, but for case and white space around it.
pub allowed-by_name :
    (t : CapabilityTable) (c : Capability)
    → evaluate (load_from_table t) c ≡ allow
    → (default_action c ≡ allow)
      ⊎ ((text : Text) × (text_for t c ≡ some text)
          × (text_eq (word_of text) (codes "allow") ≡ true))
allowed-by_name t c h =
    decided-allow (default_action c) (text_for t c) (sym (evaluate-load_from_table t c) ∙ h)
