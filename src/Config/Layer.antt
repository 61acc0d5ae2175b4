-- ===== src/Config/Layer.antt =====
-- The layers, and the laying of one over another (src/config.rs, src/config/load/merge.rs). A path
-- is its text. The merging only hands on hooks, servers and the settings of clients, so their types
-- are parameters.
use vexcoder.Prelude.{ℕ, min, max, Bool, false, Option, none, some, List, Text}

pub record Carried : Type 1 where
  pub HookConfig : Type 0
  pub HttpHookConfig : Type 0
  pub McpServerConfig : Type 0
  pub ApiClientConfig : Type 0

pub record CompactionConfigLayer : Type 0 where
  pub enabled : Option Bool
  pub threshold_percent : Option ℕ
  pub keep_recent_turns : Option ℕ
  pub summary_max_tokens : Option ℕ

pub record UndoConfigLayer : Type 0 where
  pub enabled : Option Bool
  pub max_checkpoints : Option ℕ

pub record SearchConfigLayer : Type 0 where
  pub enabled : Option Bool
  pub auto_index : Option Bool
  pub exclude : Option (List Text)
  pub max_file_size : Option ℕ

pub record AutoMemoryConfigLayer : Type 0 where
  pub enabled : Option Bool
  pub max_notes_per_turn : Option ℕ

pub record ApiConfigLayer : Type 0 where
  pub transport : Option Text
  pub host : Option Text
  pub port : Option ℕ
  pub socket : Option Text
  pub key : Option Text
  pub tls_cert : Option Text
  pub tls_key : Option Text
  pub tls_ca_cert : Option Text
  pub tls_skip_verify : Option Bool
  pub vpn_trust : Option Bool

pub record ConfigLayer (carried : Carried) : Type 0 where
  pub model_name : Option Text
  pub model_url : Option Text
  pub model_url_skip_tls_check : Option Bool
  pub working_dir : Option Text
  pub sandbox : Option Text
  pub sandbox_profile : Option Text
  pub sandbox_require : Option Bool
  pub model_backend : Option Text
  pub model_protocol : Option Text
  pub tool_call_mode : Option Text
  pub model_profile : Option Text
  pub max_project_instructions_tokens : Option ℕ
  pub max_memory_tokens : Option ℕ
  pub notes_path : Option Text
  pub api : Option ApiConfigLayer
  pub hooks : Option (List carried.HookConfig)
  pub http_hooks : Option (List carried.HttpHookConfig)
  pub mcp_servers : Option (List carried.McpServerConfig)
  pub compaction : Option CompactionConfigLayer
  pub undo : Option UndoConfigLayer
  pub search : Option SearchConfigLayer
  pub auto_memory : Option AutoMemoryConfigLayer
  pub api_client : Option carried.ApiClientConfig

-- `Option::or`
abbrev pub or : {A : Type 0} → Option A → Option A → Option A
or none b = b
or (some a) b = some a

-- A part of a layer is there in one of the two, in both or in none.
abbrev pub apply_part : {A : Type 0} → (A → A → A) → Option A → Option A → Option A
apply_part f none none = none
apply_part f (some layer) none = some layer
apply_part f none (some layer) = some layer
apply_part f (some base) (some over) = some (f base over)

unfoldable pub apply_compaction_over :
    Option CompactionConfigLayer → Option CompactionConfigLayer → Option CompactionConfigLayer
apply_compaction_over = apply_part λ base over. record {
  enabled = or over.enabled base.enabled;
  threshold_percent = or over.threshold_percent base.threshold_percent;
  keep_recent_turns = or over.keep_recent_turns base.keep_recent_turns;
  summary_max_tokens = or over.summary_max_tokens base.summary_max_tokens;
}

unfoldable pub apply_auto_memory_over :
    Option AutoMemoryConfigLayer → Option AutoMemoryConfigLayer → Option AutoMemoryConfigLayer
apply_auto_memory_over = apply_part λ base over. record {
  enabled = or over.enabled base.enabled;
  max_notes_per_turn = or over.max_notes_per_turn base.max_notes_per_turn;
}

unfoldable pub apply_undo_over :
    Option UndoConfigLayer → Option UndoConfigLayer → Option UndoConfigLayer
apply_undo_over = apply_part λ base over. record {
  enabled = or over.enabled base.enabled;
  max_checkpoints = or over.max_checkpoints base.max_checkpoints;
}

unfoldable pub apply_search_over :
    Option SearchConfigLayer → Option SearchConfigLayer → Option SearchConfigLayer
apply_search_over = apply_part λ base over. record {
  enabled = or over.enabled base.enabled;
  auto_index = or over.auto_index base.auto_index;
  exclude = or over.exclude base.exclude;
  max_file_size = or over.max_file_size base.max_file_size;
}

unfoldable pub apply_api_over :
    Option ApiConfigLayer → Option ApiConfigLayer → Option ApiConfigLayer
apply_api_over = apply_part λ base over. record {
  transport = or over.transport base.transport;
  host = or over.host base.host;
  port = or over.port base.port;
  socket = or over.socket base.socket;
  key = or over.key base.key;
  tls_cert = or over.tls_cert base.tls_cert;
  tls_key = or over.tls_key base.tls_key;
  tls_ca_cert = or over.tls_ca_cert base.tls_ca_cert;
  tls_skip_verify = or over.tls_skip_verify base.tls_skip_verify;
  vpn_trust = or over.vpn_trust base.vpn_trust;
}

pub record AutoMemoryConfig : Type 0 where
  pub enabled : Bool
  pub max_notes_per_turn : ℕ

abbrev unwrap_or : {A : Type 0} → A → Option A → A
unwrap_or a none = a
unwrap_or a (some b) = b

-- `unwrap_or_default` of the layer, whose parts are none then
abbrev memory_layer : Option AutoMemoryConfigLayer → AutoMemoryConfigLayer
memory_layer none = record { enabled = none; max_notes_per_turn = none }
memory_layer (some layer) = layer

unfoldable pub resolve_auto_memory_config : Option AutoMemoryConfigLayer → AutoMemoryConfig
resolve_auto_memory_config layer = record {
  enabled = unwrap_or false (memory_layer layer).enabled;
  max_notes_per_turn = min (max (unwrap_or 3 (memory_layer layer).max_notes_per_turn) 1) 10;
}

module _ {carried : Carried} where
  unfoldable pub apply_over : ConfigLayer carried → ConfigLayer carried → ConfigLayer carried
  unfolding apply_api_over apply_compaction_over apply_undo_over apply_search_over
      apply_auto_memory_over
  apply_over base over = record {
    model_name = or over.model_name base.model_name;
    model_url = or over.model_url base.model_url;
    model_url_skip_tls_check = or over.model_url_skip_tls_check base.model_url_skip_tls_check;
    working_dir = or over.working_dir base.working_dir;
    sandbox = or over.sandbox base.sandbox;
    sandbox_profile = or over.sandbox_profile base.sandbox_profile;
    sandbox_require = or over.sandbox_require base.sandbox_require;
    model_backend = or over.model_backend base.model_backend;
    model_protocol = or over.model_protocol base.model_protocol;
    tool_call_mode = or over.tool_call_mode base.tool_call_mode;
    model_profile = or over.model_profile base.model_profile;
    max_project_instructions_tokens =
        or over.max_project_instructions_tokens base.max_project_instructions_tokens;
    max_memory_tokens = or over.max_memory_tokens base.max_memory_tokens;
    notes_path = or over.notes_path base.notes_path;
    api = apply_api_over base.api over.api;
    hooks = or over.hooks base.hooks;
    http_hooks = or over.http_hooks base.http_hooks;
    mcp_servers = or over.mcp_servers base.mcp_servers;
    compaction = apply_compaction_over base.compaction over.compaction;
    undo = apply_undo_over base.undo over.undo;
    search = apply_search_over base.search over.search;
    auto_memory = apply_auto_memory_over base.auto_memory over.auto_memory;
    api_client = or over.api_client base.api_client;
  }

  -- `ConfigLayer::default`
  abbrev pub no_layer : ConfigLayer carried
  no_layer = record {
    model_name = none;
    model_url = none;
    model_url_skip_tls_check = none;
    working_dir = none;
    sandbox = none;
    sandbox_profile = none;
    sandbox_require = none;
    model_backend = none;
    model_protocol = none;
    tool_call_mode = none;
    model_profile = none;
    max_project_instructions_tokens = none;
    max_memory_tokens = none;
    notes_path = none;
    api = none;
    hooks = none;
    http_hooks = none;
    mcp_servers = none;
    compaction = none;
    undo = none;
    search = none;
    auto_memory = none;
    api_client = none;
  }
