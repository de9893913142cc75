-- ===== src/Tests/Configs.antt =====
-- internal/configstore, internal/rolestore and the inputs of internal/kubopackage at concrete
-- inputs.
use text.Mathlib.TextEquality.{eq_iff}
use text.Mathlib.Text.{starts_with}
use kubocd.Common.{
  String, ◌<>◌, ◌≡◌, ◌≢◌, refl, ◌⊎◌, ◌↔◌, true, false, some, none, List, [], ◌∷◌, ok,
}
use kubocd.Common.{arith, All, contains, ◌==◌, string_eq, nat_eq, if◌then◌else◌}
use kubocd.Package.Inputs.{InputRendered, render_inputs, groom_inputs, groom_input}
use kubocd.Package.Inputs.Laws.{IsGroomed, render_inputs-IsGroomed}
use kubocd.Config.Spec.{NamespacedName, PackageRedirectSpec, ConfigSpec, Config, Configuration}
use kubocd.Value.{end}
use kubocd.Config.Store.{
  initial_configuration, get_strategy, set_strategy, new_configuration, add_configs,
  is_cluster_role, Unmarshal,
}
use kubocd.Config.Store.Laws.{
  IsUsable, AgreeOn, listed_roles, new_configuration-IsUsable, add_configs-IsUsable,
}
use kubocd.Config.Redirect.{get_package_redirect, get_package_redirect_first}
use kubocd.Roles.{missing_dependency, is_dependency_ok}
use kubocd.Roles.Laws.{
  Call, register, un_register, replay, latest, FirstMissing, missing_dependency-FirstMissing,
  is_dependency_ok-replay,
}

abbrev release_input : InputRendered
release_input = record {
  contract = "postgres";
  kind = "";
  connection_ref = record { name = ""; namespace = "" };
  release_ref = record { name = "db"; namespace = ""; output = "main" };
  alias = "";
  optional = false;
  allow_multiple = false;
  contract_lookup_namespace = "";
}

abbrev apps : String
apps = "apps"

apps-ne-empty : apps ≢ ""
apps-ne-empty = ground (arith, eq_iff apps "")

abbrev groomed_input : InputRendered
groomed_input = record release_input {
  alias = "postgres";
  release_ref = record { name = "db"; namespace = "apps"; output = "main" };
}

groomed : render_inputs (ok (release_input ∷ [])) apps ≡ ok (groomed_input ∷ [])
unfolding render_inputs groom_inputs groom_input string_eq nat_eq
groomed = refl

render_inputs-IsGroomed_example : All IsGroomed (groomed_input ∷ [])
render_inputs-IsGroomed_example =
    render_inputs-IsGroomed (ok (release_input ∷ [])) apps apps-ne-empty groomed

abbrev spec : ConfigSpec
spec = record {
  package_redirects = [];
  image_redirects = [];
  cluster_roles = "ingress" ∷ [];
  default_contexts = record { namespace = ""; name = "platform" } ∷ [];
  default_namespace_contexts = [];
  on_failure_strategies = record { name = "retry"; strategy = some "{}" } ∷ [];
  default_on_failure_strategy = "retry";
  default_helm_timeout = none;
  default_helm_interval = none;
  default_package_interval = none;
  spec_patch = none;
}

abbrev config : Config
config = record { name = "main"; spec = spec }

-- A stand-in for the decoder, which reads every text as an empty map.
abbrev empty_map : Unmarshal
empty_map text = some (some end)

abbrev same_order : List Config → List Config
same_order configs = configs

abbrev published : Configuration
published = record initial_configuration {
  cluster_roles = "ingress" ∷ [];
  default_contexts = record { namespace = "apps"; name = "platform" } ∷ [];
  on_failure_strategy_by_name = ("retry", some end) ∷ [];
  default_on_failure_strategy = "retry";
}

built : new_configuration empty_map same_order (config ∷ []) apps ≡ ok published
unfolding new_configuration get_strategy set_strategy string_eq
built = refl

new_configuration-IsUsable_example :
    IsUsable empty_map published
    × AgreeOn "retry" (config ∷ [])
    × (is_cluster_role published "ingress" ≡ contains (listed_roles (config ∷ [])) "ingress")
new_configuration-IsUsable_example =
    new_configuration-IsUsable empty_map same_order (config ∷ []) apps "ingress" apps-ne-empty built

add_configs-IsUsable_example :
    IsUsable empty_map (add_configs empty_map same_order (config ∷ config ∷ []) apps published).0
add_configs-IsUsable_example =
    add_configs-IsUsable empty_map same_order (config ∷ config ∷ []) apps apps-ne-empty published
      (new_configuration-IsUsable empty_map same_order (config ∷ []) apps "ingress" apps-ne-empty
        built).0

abbrev quay : PackageRedirectSpec
quay = record { old_prefix = "quay.io/"; new_prefix = "mirror/"; add_on = "" }

abbrev docker : PackageRedirectSpec
docker = record { old_prefix = "docker.io/"; new_prefix = ""; add_on = "" }

quay_ne_docker : starts_with ("quay.io/" <> "app") "docker.io/" ≡ false
quay_ne_docker = refl

get_package_redirect_first_example :
    get_package_redirect (docker ∷ quay ∷ []) ("quay.io/" <> "app")
    ≡ (some quay, if quay.new_prefix == "" then "quay.io/" <> "app" else "mirror/" <> "app")
get_package_redirect_first_example =
    get_package_redirect_first (docker ∷ []) [] quay "app" (quay_ne_docker, tt)

missing_dependency-FirstMissing_example :
    FirstMissing published []
      ("ingress" ∷ "auth" ∷ [])
      (missing_dependency published [] ("ingress" ∷ "auth" ∷ []))
missing_dependency-FirstMissing_example =
    missing_dependency-FirstMissing published [] ("ingress" ∷ "auth" ∷ [])

abbrev full_name : NamespacedName → String
full_name n = n.namespace <> ("/" <> n.name)

abbrev keycloak : NamespacedName
keycloak = record { namespace = "apps"; name = "keycloak" }

abbrev calls : List Call
calls = register keycloak ("auth" ∷ []) ∷ un_register keycloak ∷ register keycloak ("sso" ∷ []) ∷ []

is_dependency_ok-replay_example :
    (is_dependency_ok published (replay full_name [] calls) "sso" ≡ true) ↔ (
      (is_cluster_role published "sso" ≡ true)
      ⊎ ((release : String) × (roles : List String) × (latest full_name none release calls
            ≡ some roles)
          × (contains roles "sso" ≡ true)))
is_dependency_ok-replay_example = is_dependency_ok-replay full_name published calls "sso"
