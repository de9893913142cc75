-- ===== src/Package/Inputs.antt =====
-- `InputRendered` and `RenderInputs` of internal/kubopackage/package.go. The rendering of the
-- template is a parameter: what it gave, or its error.
pub mod Laws
use kubocd.Common.{ℕ, suc, ◌+◌, String, Bool, true, false, not, ◌&&◌, ◌||◌, List, [], ◌∷◌, Result}
use kubocd.Common.{ok, err, ◌>>=◌, ◌>>◌, fail_if, ◌==◌, string_eq, nat_eq, ltb, if◌then◌else◌}
use kubocd.Package.Kinds.{kind_connection, kind_cluster_connection, count_non_zero, is_set}

pub record ConnectionRef : Type 0 where
  pub name : String
  pub namespace : String

pub record ReleaseRef : Type 0 where
  pub name : String
  pub namespace : String
  pub output : String

pub record InputRendered : Type 0 where
  pub contract : String
  pub kind : String
  pub connection_ref : ConnectionRef
  pub release_ref : ReleaseRef
  pub alias : String
  pub optional : Bool
  pub allow_multiple : Bool
  pub contract_lookup_namespace : String

-- Each with the index of the input.
pub data InputError : Type 0 where
  not_rendered : InputError
  contract_required : ℕ → InputError
  bad_kind : ℕ → InputError
  namespace_of_cluster_connection : ℕ → InputError
  several_names : ℕ → InputError
  several_namespaces : ℕ → InputError

-- `if ir.Alias == "" { ir.Alias = ir.Contract }`
default_alias : InputRendered → InputRendered
default_alias ir = record ir { alias = if ir.alias == "" then ir.contract else ir.alias }

-- `if ir.ConnectionRef.Name != "" { … }`: a missing namespace gets the default one, but for a
-- ClusterConnection, and a given one is an error for a ClusterConnection.
default_connection_namespace : ℕ → String → InputRendered → Result InputError InputRendered
default_connection_namespace idx default_namespace ir = do
  fail_if (is_set name && is_set namespace && ir.kind == kind_cluster_connection)
      (namespace_of_cluster_connection idx)
  let defaults = is_set name && namespace == "" && (ir.kind == "" || ir.kind == kind_connection)
  ok (record ir {
    connection_ref = record {
      name = name;
      namespace = if defaults then default_namespace else namespace;
    };
  })
  where
    open ir use {connection_ref}
    open connection_ref use {name, namespace}

-- `if ir.ReleaseRef.Name != "" && ir.ReleaseRef.Namespace == "" { … }`
default_release_namespace : String → InputRendered → InputRendered
default_release_namespace default_namespace ir = record ir {
  release_ref = record {
    name = name;
    namespace = if is_set name && namespace == "" then default_namespace else namespace;
    output = output;
  };
}
  where
    open ir use {release_ref}
    open release_ref use {name, namespace, output}

-- The last part of the loop's body, from `x := misc.CountNonZero(…)`.
choose_lookup : ℕ → String → InputRendered → Result InputError InputRendered
choose_lookup idx default_namespace ir = do
  let names = count_non_zero (ir.connection_ref.name ∷ ir.release_ref.name ∷ [])
  let namespaces = count_non_zero (ir.connection_ref.namespace ∷ ir.release_ref.namespace ∷ [])
  fail_if (ltb 1 names) (several_names idx)
  fail_if (names == 0 && ltb 1 namespaces) (several_namespaces idx)
  ok (record ir {
    contract_lookup_namespace =
        if names == 0
        then (if namespaces == 0
            then default_namespace
            else if is_set ir.connection_ref.namespace
            then ir.connection_ref.namespace
            else ir.release_ref.namespace)
        else ir.contract_lookup_namespace;
  })

-- The body of the loop, at the input of index `idx`.
unfoldable pub groom_input : ℕ → String → InputRendered → Result InputError InputRendered
unfolding default_alias default_connection_namespace default_release_namespace choose_lookup
groom_input idx default_namespace ir₀ = do
  let ir₁ = default_alias ir₀
  fail_if (ir₁.contract == "") (contract_required idx)
  fail_if
      (not (ir₁.kind == "")
        && not (ir₁.kind == kind_connection)
        && not (ir₁.kind == kind_cluster_connection))
      (bad_kind idx)
  ir₂ ← default_connection_namespace idx default_namespace ir₁
  choose_lookup idx default_namespace (default_release_namespace default_namespace ir₂)

unfoldable pub groom_inputs :
    ℕ → String → List InputRendered → Result InputError (List InputRendered)
groom_inputs idx default_namespace [] = ok []
groom_inputs idx default_namespace (ir ∷ irs) = do
  ir' ← groom_input idx default_namespace ir
  irs' ← groom_inputs (suc idx) default_namespace irs
  ok (ir' ∷ irs')

unfoldable pub render_inputs :
    Result InputError (List InputRendered) → String → Result InputError (List InputRendered)
unfolding groom_inputs
render_inputs rendered default_namespace = do
  result ← rendered
  groom_inputs 0 default_namespace result
