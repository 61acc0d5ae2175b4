-- ===== src/Approval/Tests.antt =====
-- A policy file with a word, a capitalised word and a word that is not known.
use vexcoder.Prelude.{◌≡◌, none, some, codes, text_eq}
use vexcoder.Lines.{trim_start, trim_end}
use vexcoder.Approval.Policy.{
  run_command, allow, CapabilityTable, evaluate, load_from_table, parse_toml_value,
}
use vexcoder.Approval.Rules.{text_for, default_action, decided, evaluate-load_from_table}

abbrev file : CapabilityTable
file = record {
  read_file_text = none;
  write_file_text = some (codes "session");
  apply_patch_text = none;
  run_command_text = some (codes " Allow");
  mcp_tool_text = none;
  network_text = some (codes "never");
  browser_text = none;
}

evaluate_example :
    evaluate (load_from_table file) run_command
    ≡ decided (default_action run_command) (text_for file run_command)
evaluate_example = evaluate-load_from_table file run_command

run_command_allowed : evaluate (load_from_table file) run_command ≡ allow
unfolding parse_toml_value text_eq trim_end trim_start
run_command_allowed = evaluate-load_from_table file run_command
