-- ===== src/Config/Load.antt =====
-- `load_layers`: what may stand in which layer, and their merging (src/config/load/mod.rs). A layer
-- comes in as its file is read, and so does that of the environment; what is made of the merged
-- layer is not modelled.
use vexcoder.Prelude.{Bool, false, Option, none, some, if◌then◌else◌, Text}
use vexcoder.Prelude.Assoc.{is_some}
use vexcoder.Config.Layer.{Carried, ApiConfigLayer, ConfigLayer, apply_over, no_layer}

pub data LayerError : Type 0 where
  skip_tls_check_in_repo : LayerError
  notes_path_in_repo : LayerError
  hooks_in_repo : LayerError
  http_hooks_in_repo : LayerError
  mcp_servers_in_repo : LayerError
  mcp_servers_in_system : LayerError
  api_key_in_repo : LayerError

pub data Loaded (A : Type 0) : Type 0 where
  merged : A → Loaded A
  refused : LayerError → Loaded A

abbrev pub is_true : Option Bool → Bool
is_true none = false
is_true (some b) = b

abbrev pub api_key : Option ApiConfigLayer → Option Text
api_key none = none
api_key (some api) = api.key

module _ {carried : Carried} where
  -- `is_some_and` of a layer
  abbrev pub layer_has : (ConfigLayer carried → Bool) → Option (ConfigLayer carried) → Bool
  layer_has p none = false
  layer_has p (some layer) = p layer

  -- The checks, in their order
  unfoldable pub layer_error :
      Option (ConfigLayer carried) → Option (ConfigLayer carried) → Option LayerError
  layer_error system_layer repo_layer =
      if layer_has (λ l. is_true l.model_url_skip_tls_check) repo_layer
      then some skip_tls_check_in_repo
      else if layer_has (λ l. is_some l.notes_path) repo_layer
      then some notes_path_in_repo
      else if layer_has (λ l. is_some l.hooks) repo_layer
      then some hooks_in_repo
      else if layer_has (λ l. is_some l.http_hooks) repo_layer
      then some http_hooks_in_repo
      else if layer_has (λ l. is_some l.mcp_servers) repo_layer
      then some mcp_servers_in_repo
      else if layer_has (λ l. is_some l.mcp_servers) system_layer
      then some mcp_servers_in_system
      else if layer_has (λ l. is_some (api_key l.api)) repo_layer
      then some api_key_in_repo
      else none

  -- `if let Some(l) = layer { merged = apply_over(merged, l); }`
  abbrev pub lay : ConfigLayer carried → Option (ConfigLayer carried) → ConfigLayer carried
  lay base none = base
  lay base (some layer) = apply_over base layer

  abbrev pub merge_layers :
      (system_layer user_layer repo_layer : Option (ConfigLayer carried))
      → ConfigLayer carried
      → ConfigLayer carried
  merge_layers system_layer user_layer repo_layer env_layer =
      apply_over (lay (lay (lay no_layer system_layer) user_layer) repo_layer) env_layer

  unfoldable pub load_layers :
      (system_layer user_layer repo_layer : Option (ConfigLayer carried))
      → ConfigLayer carried
      → Loaded (ConfigLayer carried)
  unfolding layer_error apply_over
  load_layers system_layer user_layer repo_layer env_layer =
      elim (layer_error system_layer repo_layer) [
        | some e ↦ refused e
        | none ↦ merged (merge_layers system_layer user_layer repo_layer env_layer)
      ]
