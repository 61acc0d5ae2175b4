-- ===== src/Approval/Policy.antt =====
-- `FileApprovalPolicy`. The policy file comes in as the table that the TOML reader makes of it. The
-- map of rules is a function, as its order is never read.
use vexcoder.Prelude.{
  Bool, true, false, Option, none, some, List, [], ◌∷◌, map, if◌then◌else◌, Text, codes, text_eq,
}
use vexcoder.Lines.{ascii_lowercase, trim}

pub data Capability : Type 0 where
  read_file : Capability
  write_file : Capability
  apply_patch : Capability
  run_command : Capability
  mcp_tool : Capability
  network : Capability
  browser : Capability

pub data ApprovalScope : Type 0 where
  once : ApprovalScope
  task : ApprovalScope
  session : ApprovalScope

pub data PolicyAction : Type 0 where
  allow : PolicyAction
  prompt : ApprovalScope → PolicyAction
  deny : PolicyAction

pub record FileApprovalPolicy : Type 0 where
  pub rules : Capability → Option PolicyAction

unfoldable pub default_rules : Capability → Option PolicyAction
default_rules read_file = some allow
default_rules _ = some (prompt once)

unfoldable pub parse_toml_value : Text → Option PolicyAction
parse_toml_value value =
    let word = map ascii_lowercase (trim value) in
    if text_eq word (codes "allow")
    then some allow
    else if text_eq word (codes "deny")
    then some deny
    else if text_eq word (codes "once")
    then some (prompt once)
    else if text_eq word (codes "task")
    then some (prompt task)
    else if text_eq word (codes "session")
    then some (prompt session)
    else none

-- `CapabilityTable`
pub record CapabilityTable : Type 0 where
  pub read_file_text : Option Text
  pub write_file_text : Option Text
  pub apply_patch_text : Option Text
  pub run_command_text : Option Text
  pub mcp_tool_text : Option Text
  pub network_text : Option Text
  pub browser_text : Option Text

abbrev pub same : Capability → Capability → Bool
same read_file read_file = true
same write_file write_file = true
same apply_patch apply_patch = true
same run_command run_command = true
same mcp_tool mcp_tool = true
same network network = true
same browser browser = true
same _ _ = false

unfoldable pub insert_rule : FileApprovalPolicy → Capability → PolicyAction → FileApprovalPolicy
insert_rule p c action = record { rules = λ d. if same c d then some action else p.rules d }

-- One turn of the loop over the table
unfoldable pub load_entry : FileApprovalPolicy → Capability × Option Text → FileApprovalPolicy
unfolding insert_rule
load_entry p (c, none) = p
load_entry p (c, some value) = set (parse_toml_value value)
  where
    set : Option PolicyAction → FileApprovalPolicy
    set none = p
    set (some action) = insert_rule p c action

abbrev pub load_entries : FileApprovalPolicy → List (Capability × Option Text) → FileApprovalPolicy
load_entries p [] = p
load_entries p (e ∷ es) = load_entries (load_entry p e) es

abbrev pub entries_of : CapabilityTable → List (Capability × Option Text)
entries_of t =
    (read_file, t.read_file_text)
    ∷ (write_file, t.write_file_text)
    ∷ (apply_patch, t.apply_patch_text)
    ∷ (run_command, t.run_command_text)
    ∷ (mcp_tool, t.mcp_tool_text)
    ∷ (network, t.network_text)
    ∷ (browser, t.browser_text)
    ∷ []

unfoldable pub default_policy : FileApprovalPolicy
unfolding default_rules
default_policy = record { rules = default_rules }

unfoldable pub load_from_table : CapabilityTable → FileApprovalPolicy
unfolding load_entry default_policy
load_from_table t = load_entries default_policy (entries_of t)

abbrev pub or_prompt : Option PolicyAction → PolicyAction
or_prompt none = prompt once
or_prompt (some action) = action

unfoldable pub evaluate : FileApprovalPolicy → Capability → PolicyAction
evaluate p c = or_prompt (p.rules c)
