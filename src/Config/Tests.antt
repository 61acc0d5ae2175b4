-- ===== src/Config/Tests.antt =====
-- A user with hooks and a key, in a repository that names its model.
use vexcoder.Prelude.{◌≡◌, refl, none, some, true, false, [], ◌∷◌, Text, codes}
use vexcoder.Config.Layer.{Carried, ApiConfigLayer, ConfigLayer, no_layer}
use vexcoder.Config.Load.{merged, merge_layers, load_layers, layer_error}
use vexcoder.Config.Guarded.{Guarded, load_layers-Guarded}

abbrev names : Carried
names = record {
  HookConfig = Text;
  HttpHookConfig = Text;
  McpServerConfig = Text;
  ApiClientConfig = Text;
}

abbrev server : ApiConfigLayer
server = record {
  transport = none;
  host = none;
  port = some 8080;
  socket = none;
  key = some (codes "secret");
  tls_cert = none;
  tls_key = none;
  tls_ca_cert = none;
  tls_skip_verify = none;
  vpn_trust = none;
}

abbrev of_user : ConfigLayer names
of_user = record no_layer {
  hooks = some (codes "cargo fmt" ∷ []);
  api = some server;
  model_url_skip_tls_check = some true;
}

abbrev of_repo : ConfigLayer names
of_repo = record no_layer {
  model_name = some (codes "local/small");
  model_url_skip_tls_check = some false;
  api = some (record server { key = none });
}

abbrev of_env : ConfigLayer names
of_env = record no_layer { max_memory_tokens = some 2000 }

accepted :
    load_layers none (some of_user) (some of_repo) of_env
    ≡ merged (merge_layers none (some of_user) (some of_repo) of_env)
unfolding load_layers layer_error
accepted = refl

load_layers-Guarded_example :
    Guarded
      (merge_layers none (some of_user) (some of_repo) of_env)
      (merge_layers none (some of_user) none of_env)
load_layers-Guarded_example =
    load_layers-Guarded none (some of_user) (some of_repo) of_env
      (merge_layers none (some of_user) (some of_repo) of_env) accepted
