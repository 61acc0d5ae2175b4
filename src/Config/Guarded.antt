-- ===== src/Config/Guarded.antt =====
-- What a configuration in the repository cannot set (src/config/load/mod.rs).
use vexcoder.Prelude.{
  ◌≡◌, refl, sym, ap, subst, ◌∙◌, Bool, true, false, Option, none, some, if◌then◌else◌,
}
use vexcoder.Prelude.Assoc.{is_some}
use vexcoder.Config.Layer.{
  Carried, ApiConfigLayer, ConfigLayer, or, apply_api_over, apply_over, no_layer,
}
use vexcoder.Config.Load.{
  LayerError, merged, refused, is_true, api_key, layer_has, layer_error, lay, merge_layers,
  load_layers,
}

if-none :
    {A : Type 0} (b : Bool) (a : A) (o : Option A)
    → (if b then some a else o) ≡ none
    → (b ≡ false) × (o ≡ none)
if-none true a o h = cc
if-none false a o h = (refl, h)

is_some-none : {A : Type 0} (o : Option A) → is_some o ≡ false → o ≡ none
is_some-none none h = refl
is_some-none (some a) h = cc

or_none : {A : Type 0} (o : Option A) → or o none ≡ o
or_none none = refl
or_none (some a) = refl

or-skip : (e l b : Option Bool) → is_true l ≡ false → or e (or l b) ≡ some true → or e b ≡ some true
or-skip (some x) l b h k = k
or-skip none none b h k = k
or-skip none (some true) b h k = cc
or-skip none (some false) b h k = cc

api_key-apply_api_over :
    (base over : Option ApiConfigLayer)
    → api_key (apply_api_over base over) ≡ or (api_key over) (api_key base)
unfolding apply_api_over
api_key-apply_api_over none none = refl
api_key-apply_api_over (some b) none = refl
api_key-apply_api_over none (some o) = sym (or_none o.key)
api_key-apply_api_over (some b) (some o) = refl

module _ {carried : Carried} where
  -- The parts that only the user's layers may set are as without the layer of the repository, and
  -- the check of TLS is skipped only where it would be skipped without that layer.
  pub record Guarded (m without_repo : ConfigLayer carried) : Type 0 where
    pub notes_path : m.notes_path ≡ without_repo.notes_path
    pub hooks : m.hooks ≡ without_repo.hooks
    pub http_hooks : m.http_hooks ≡ without_repo.http_hooks
    pub mcp_servers : m.mcp_servers ≡ without_repo.mcp_servers
    pub key : api_key m.api ≡ api_key without_repo.api
    pub skip_tls :
        m.model_url_skip_tls_check ≡ some true → without_repo.model_url_skip_tls_check ≡ some true

  -- The checks of the repository's layer, passed
  record Passed (l : ConfigLayer carried) : Type 0 where
    no_skip : is_true l.model_url_skip_tls_check ≡ false
    no_notes : l.notes_path ≡ none
    no_hooks : l.hooks ≡ none
    no_http_hooks : l.http_hooks ≡ none
    no_servers : l.mcp_servers ≡ none
    no_key : api_key l.api ≡ none

  layer_error-Passed :
      (system : Option (ConfigLayer carried)) (l : ConfigLayer carried)
      → layer_error system (some l) ≡ none
      → Passed l × (layer_has (λ k. is_some k.mcp_servers) system ≡ false)
  unfolding layer_error
  layer_error-Passed system l h =
      let (skip, h1) = if-none _ _ _ h in
      let (notes, h2) = if-none _ _ _ h1 in
      let (hooks, h3) = if-none _ _ _ h2 in
      let (http, h4) = if-none _ _ _ h3 in
      let (mcp, h5) = if-none _ _ _ h4 in
      let (system_mcp, h6) = if-none _ _ _ h5 in
      let (key, h7) = if-none _ _ _ h6 in
      (
        record {
          no_skip = skip;
          no_notes = is_some-none l.notes_path notes;
          no_hooks = is_some-none l.hooks hooks;
          no_http_hooks = is_some-none l.http_hooks http;
          no_servers = is_some-none l.mcp_servers mcp;
          no_key = is_some-none (api_key l.api) key;
        },
        system_mcp,
      )

  module _ (base env : ConfigLayer carried) (l : ConfigLayer carried) (p : Passed l) where
    apply_over-Guarded : Guarded (apply_over (apply_over base l) env) (apply_over base env)
    unfolding apply_over
    apply_over-Guarded = record {
      notes_path = ap (λ o. or env.notes_path (or o base.notes_path)) p.no_notes;
      hooks = ap (λ o. or env.hooks (or o base.hooks)) p.no_hooks;
      http_hooks = ap (λ o. or env.http_hooks (or o base.http_hooks)) p.no_http_hooks;
      mcp_servers = ap (λ o. or env.mcp_servers (or o base.mcp_servers)) p.no_servers;
      key =
          api_key-apply_api_over (apply_api_over base.api l.api) env.api
          ∙ (ap (or (api_key env.api)) (api_key-apply_api_over base.api l.api)
              ∙ (ap (λ o. or (api_key env.api) (or o (api_key base.api))) p.no_key
                  ∙ sym (api_key-apply_api_over base.api env.api)));
      skip_tls =
          or-skip env.model_url_skip_tls_check l.model_url_skip_tls_check
            base.model_url_skip_tls_check p.no_skip;
    }

  same-Guarded : (m : ConfigLayer carried) → Guarded m m
  same-Guarded m = record {
    notes_path = refl;
    hooks = refl;
    http_hooks = refl;
    mcp_servers = refl;
    key = refl;
    skip_tls = λ e. e;
  }

  merge_layers-Guarded :
      (system user repo : Option (ConfigLayer carried)) (env : ConfigLayer carried)
      → layer_error system repo ≡ none
      → Guarded (merge_layers system user repo env) (merge_layers system user none env)
  merge_layers-Guarded system user none env h = same-Guarded (merge_layers system user none env)
  merge_layers-Guarded system user (some l) env h =
      apply_over-Guarded (lay (lay no_layer system) user) env l (layer_error-Passed system l h).0

  load_layers-merged :
      (system user repo : Option (ConfigLayer carried)) (env m : ConfigLayer carried)
      → load_layers system user repo env ≡ merged m
      → (layer_error system repo ≡ none) × (merge_layers system user repo env ≡ m)
  unfolding load_layers
  load_layers-merged system user repo env m = go (layer_error system repo)
    where
      go :
          (o : Option LayerError)
          → (elim o [ some e ↦ refused e | none ↦ merged (merge_layers system user repo env) ])
            ≡ merged m
          → (o ≡ none) × (merge_layers system user repo env ≡ m)
      go (some e) h = cc
      go none h = (refl, cc)

  -- Where the layers of the system, the user, the repository and the environment are accepted, the
  -- notes path, the hooks of both kinds, the MCP servers and the API key of the merged layer are
  -- those that the layers would give without that of the repository, and the check of TLS is
  -- skipped only where it would be skipped without it.
  pub load_layers-Guarded :
      (system user repo : Option (ConfigLayer carried)) (env m : ConfigLayer carried)
      → load_layers system user repo env ≡ merged m
      → Guarded m (merge_layers system user none env)
  load_layers-Guarded system user repo env m h =
      let (passed, same) = load_layers-merged system user repo env m h in
      subst (λ k. Guarded k (merge_layers system user none env)) same
        (merge_layers-Guarded system user repo env passed)
