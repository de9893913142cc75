-- ===== src/Config/Store.antt =====
-- `newConfiguration`, `AddConfigs` and the readers of internal/configstore/configstore.go. The
-- YAML decoder and `sort.Slice` by name are parameters. The readers return copies, which are the
-- same values here.
pub mod Laws
use kubocd.Common.{ℕ, ◌+◌, ◌*◌, ◌%◌, ◌^◌, String, Bool, true, false, not, ◌&&◌, Option, none, some}
use kubocd.Common.{List, [], ◌∷◌, ◌++◌, map, Result, ok, err, ◌>>=◌, ◌>>◌, fail_if, contains}
use kubocd.Common.{◌==◌, string_eq, if◌then◌else◌}
use kubocd.Common.Int64.{ℤ, pos}
use kubocd.Value.{Fields}
use kubocd.Config.Spec.{NamespacedName, OnFailureStrategySpec, ConfigSpec, Config, Configuration}

-- `yaml.Unmarshal` into a map: an error, or the map, which the text `null` makes nil.
abbrev pub Unmarshal : Type 0
Unmarshal = String → Option (Option Fields)

pub data ConfigError : Type 0 where
  bad_strategy : String → ConfigError
  two_defaults : String → String → ConfigError
  undefined_default : String → ConfigError

abbrev minute : ℕ
minute = 60 * 1000000000

-- `&configuration{}`
abbrev zero_configuration : Configuration
zero_configuration = record {
  version = 0;
  cluster_roles = [];
  package_redirects = [];
  image_redirects = [];
  default_contexts = [];
  default_namespace_contexts = [];
  default_on_failure_strategy = "";
  on_failure_strategy_by_name = [];
  default_helm_timeout = pos 0;
  default_helm_interval = pos 0;
  default_package_interval = pos 0;
  spec_patch = none;
}

-- The `cfg` that the loop of `newConfiguration` starts from.
abbrev pub initial_configuration : Configuration
initial_configuration = record zero_configuration {
  default_helm_timeout = pos (minute * 2);
  default_helm_interval = pos (minute * 30);
  default_package_interval = pos (minute * 30);
}

-- `m[name] = v` and `m[name]`, which is nil where the name is missing.
unfoldable pub set_strategy :
    String → Option Fields → List (String × Option Fields) → List (String × Option Fields)
set_strategy k v [] = (k, v) ∷ []
set_strategy k v ((j, w) ∷ m) = if k == j then (j, v) ∷ m else (j, w) ∷ set_strategy k v m

unfoldable pub get_strategy : String → List (String × Option Fields) → Option Fields
get_strategy k [] = none
get_strategy k ((j, w) ∷ m) = if k == j then w else get_strategy k m

abbrev pub or_default {ℓ} : {A : Type ℓ} → Option A → A → A
or_default none d = d
or_default (some a) d = a

abbrev or_else {ℓ} : {A : Type ℓ} → Option A → Option A → Option A
or_else none d = d
or_else (some a) d = some a

-- The rest of `AddConfigs`. The store is its current configuration, which is replaced as a whole.
publish :
    Configuration → Result ConfigError Configuration → Configuration × Result ConfigError (Unit {0})
publish current (err e) = (current, err e)
publish current (ok cfg) = (record cfg { version = (current.version + 1) % 2 ^ 64 }, ok tt)

module _ (unmarshal : Unmarshal) where
  add_strategies :
      List OnFailureStrategySpec
      → List (String × Option Fields)
      → Result ConfigError (List (String × Option Fields))
  add_strategies [] m = ok m
  add_strategies (s ∷ strategies) m = elim s.strategy [
    | none ↦ add_strategies strategies m
    | some raw ↦ elim (unmarshal raw) [
      | none ↦ err (bad_strategy s.name)
      | some v ↦ add_strategies strategies (set_strategy s.name v m)
    ]
  ]

  -- The default strategy after a Config that sets `new`.
  add_default : String → String → Result ConfigError String
  add_default old new =
      if new == ""
      then ok old
      else if not (old == "") && not (old == new)
      then err (two_defaults old new)
      else ok new

  -- The body of the loop over the Configs.
  add_config : Config → Configuration → Result ConfigError Configuration
  unfolding add_strategies add_default
  add_config config cfg = do
    let spec = config.spec
    strategies ← add_strategies spec.on_failure_strategies cfg.on_failure_strategy_by_name
    default ← add_default cfg.default_on_failure_strategy spec.default_on_failure_strategy
    ok (record {
      version = cfg.version;
      cluster_roles = cfg.cluster_roles ++ spec.cluster_roles;
      package_redirects = cfg.package_redirects ++ spec.package_redirects;
      image_redirects = cfg.image_redirects ++ spec.image_redirects;
      default_contexts = cfg.default_contexts ++ spec.default_contexts;
      default_namespace_contexts =
          cfg.default_namespace_contexts ++ spec.default_namespace_contexts;
      default_on_failure_strategy = default;
      on_failure_strategy_by_name = strategies;
      default_helm_timeout = or_default spec.default_helm_timeout cfg.default_helm_timeout;
      default_helm_interval = or_default spec.default_helm_interval cfg.default_helm_interval;
      default_package_interval =
          or_default spec.default_package_interval cfg.default_package_interval;
      spec_patch = or_else spec.spec_patch cfg.spec_patch;
    })

  add_all : List Config → Configuration → Result ConfigError Configuration
  unfolding add_config
  add_all [] cfg = ok cfg
  add_all (config ∷ configs) cfg = do cfg' ← add_config config cfg; add_all configs cfg'

  with_namespace : String → NamespacedName → NamespacedName
  with_namespace default_namespace c = record c {
    namespace = if c.namespace == "" then default_namespace else c.namespace;
  }

  is_nil : Option Fields → Bool
  is_nil none = true
  is_nil (some m) = false

  -- After the loop.
  finish : String → Configuration → Result ConfigError Configuration
  unfolding with_namespace is_nil
  finish default_namespace cfg = do
    fail_if
        (not (cfg.default_on_failure_strategy == "")
          && is_nil (get_strategy cfg.default_on_failure_strategy cfg.on_failure_strategy_by_name))
        (undefined_default cfg.default_on_failure_strategy)
    ok (record cfg {
      default_contexts = map (with_namespace default_namespace) cfg.default_contexts;
    })

  module _ (sort_by_name : List Config → List Config) where
    unfoldable pub new_configuration : List Config → String → Result ConfigError Configuration
    unfolding add_all finish
    new_configuration configs default_namespace = do
      cfg ← add_all (sort_by_name configs) initial_configuration
      finish default_namespace cfg

    unfoldable pub add_configs :
        List Config → String → Configuration → Configuration × Result ConfigError (Unit {0})
    unfolding publish
    add_configs configs default_namespace current =
        publish current (new_configuration configs default_namespace)

unfoldable pub is_cluster_role : Configuration → String → Bool
is_cluster_role cfg role = contains cfg.cluster_roles role

unfoldable pub get_on_failure_strategy : Configuration → String → Option Fields
get_on_failure_strategy cfg name = get_strategy name cfg.on_failure_strategy_by_name

unfoldable pub get_default_on_failure_strategy : Configuration → Option Fields
get_default_on_failure_strategy cfg =
    if cfg.default_on_failure_strategy == ""
    then none
    else get_strategy cfg.default_on_failure_strategy cfg.on_failure_strategy_by_name
