-- ===== src/Config/Spec.antt =====
-- `ConfigSpec` and its parts of api/v1alpha1/config_types.go, and the `configuration` of
-- internal/configstore/configstore.go. A duration is its nanoseconds; raw JSON is its text.
use kubocd.Common.{ℕ, String, Option, List}
use kubocd.Common.Int64.{ℤ}
use kubocd.Value.{Fields}

pub record NamespacedName : Type 0 where
  pub namespace : String
  pub name : String

-- `add_on` stands for the settings that a redirect only carries.
pub record PackageRedirectSpec : Type 0 where
  pub old_prefix : String
  pub new_prefix : String
  pub add_on : String

pub record ImageRedirectSpec : Type 0 where
  pub old_prefix : String
  pub new_prefix : String
  pub image_pull_policy : String
  pub image_pull_secrets : List String

pub record OnFailureStrategySpec : Type 0 where
  pub name : String
  pub strategy : Option String

pub record ConfigSpec : Type 0 where
  pub package_redirects : List PackageRedirectSpec
  pub image_redirects : List ImageRedirectSpec
  pub cluster_roles : List String
  pub default_contexts : List NamespacedName
  pub default_namespace_contexts : List String
  pub on_failure_strategies : List OnFailureStrategySpec
  pub default_on_failure_strategy : String
  pub default_helm_timeout : Option ℤ
  pub default_helm_interval : Option ℤ
  pub default_package_interval : Option ℤ
  pub spec_patch : Option String

pub record Config : Type 0 where
  pub name : String
  pub spec : ConfigSpec

-- A strategy is a map, or nil.
pub record Configuration : Type 0 where
  pub version : ℕ
  pub cluster_roles : List String
  pub package_redirects : List PackageRedirectSpec
  pub image_redirects : List ImageRedirectSpec
  pub default_contexts : List NamespacedName
  pub default_namespace_contexts : List String
  pub default_on_failure_strategy : String
  pub on_failure_strategy_by_name : List (String × Option Fields)
  pub default_helm_timeout : ℤ
  pub default_helm_interval : ℤ
  pub default_package_interval : ℤ
  pub spec_patch : Option String
