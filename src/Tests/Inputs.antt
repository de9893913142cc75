-- ===== src/Tests/Inputs.antt =====
-- internal/controller/release_buildinputmodel.go at a cluster of three connections. A stand-in for
-- the YAML parser knows two texts, and one for the sort leaves the list as it is.
use kubocd.Common.{String, ◌≡◌, refl, ◌&&◌, true, false, some, none, List, [], ◌∷◌, ◌++◌, ok, All}
use kubocd.Common.{Option, ◌==◌, string_eq, if◌then◌else◌}
use kubocd.Common.Int64.{pos}
use kubocd.Value.{Value, str, object, array, nil, item, Fields, end, field}
use kubocd.Value.Maps.{get_field, set_field}
use kubocd.Config.Spec.{NamespacedName}
use kubocd.Package.Inputs.{InputRendered}
use kubocd.Refs.Generate.{generate_ref_inputs, format_alias, ref_input}
use kubocd.Inputs.Connection.{
  Reference, reference_to, Connection, Fetched, fetched, not_found, Helper,
}
use kubocd.Inputs.Build.{
  Collector, build_input_model, handle_inputs, handle_input, select, consider, is_possible,
}
use kubocd.Inputs.Build.{
  bim_handle_connection_ref, bim_handle_contract_connection, fetch_connection_ref,
  bim_filter_connection, conclude, elect, elect_all, parse_value, parse_values, listed,
  handle_lists,
}
use kubocd.Inputs.Gate.{IsSettled, ComesFrom, build_input_model-gate, build_input_model-elected}
use kubocd.Tests.References.{
  unary, parameters, context, dbs, oidc, first_alias, second_alias, oidc_alias, generated,
  parameters-IsSized, context-IsSized, distinct, dbs-plain, oidc-plain,
}
use mathlib.Core.Path.{subst}
use kubocd.Common.{ok-injective, sym, ◌∙◌, ◌⊎◌, err}
use kubocd.Refs.Generate.{Generated}
use kubocd.Refs.Apply.Laws.{NodupAliases}
use kubocd.Reconcile.Status.{Ending}
use kubocd.Reconcile.Resolution.{
  Texts, Sources, Resolved, generated_of, resolve_inputs, IsEarly, IsResolved,
}
use kubocd.Reconcile.Resolved.{resolve_inputs-IsResolved}
use kubocd.Tests.Passes.{operation}

abbrev connection : String → String → String → String → Connection
connection kind name contract raw = record {
  kind = kind;
  name = name;
  namespace = if kind == "Connection" then "apps" else "";
  contract = contract;
  output_name = "";
  phase = "READY";
  priority = pos 0;
  values_raw = some raw;
}

abbrev main : Connection
main = connection "Connection" "main" "postgres" "host: db1"

abbrev audit : Connection
audit = connection "Connection" "audit" "postgres" "host: db2"

abbrev login : Connection
login = connection "ClusterConnection" "login" "oidc" "host: db1"

abbrev get : String → NamespacedName → Fetched
get kind name =
    if kind == "Connection" && name.name == "main"
    then fetched main
    else if kind == "Connection" && name.name == "audit"
    then fetched audit
    else if kind == "ClusterConnection" && name.name == "login"
    then fetched login
    else not_found

abbrev unmarshal_strict : String → Option Fields
unmarshal_strict raw =
    if raw == "host: db1"
    then some (field "host" (str "db1") end)
    else if raw == "host: db2"
    then some (field "host" (str "db2") end)
    else none

abbrev cluster : Helper
cluster = record {
  get = get;
  find_output_connections_from_release = λ release. some [];
  find_output_cluster_connections_from_release = λ release. some [];
  find_connections_from_contract = λ namespace contract. some (audit ∷ main ∷ []);
  find_cluster_connections_from_contract = λ contract. some [];
  unmarshal_strict = unmarshal_strict;
  sort_by_priority = λ l. l;
  length-sort = λ l. refl;
  sort-All = λ P l h. h;
}

-- An input that any database of the namespace serves.
abbrev any_database : InputRendered
any_database = record {
  contract = "postgres";
  kind = "Connection";
  connection_ref = record { name = ""; namespace = "" };
  release_ref = record { name = ""; namespace = ""; output = "" };
  alias = "database";
  optional = false;
  allow_multiple = true;
  contract_lookup_namespace = "apps";
}

abbrev inputs : List InputRendered
inputs = (any_database ∷ []) ++ generated.inputs

abbrev to : Connection → Reference
to c = reference_to c

abbrev missing : String → Reference
missing name = record { kind = "ClusterConnection"; name = name; namespace = "apps" }

generates_beside :
    generate_ref_inputs unary
      (dbs ∷ [])
      (oidc ∷ [])
      (object parameters)
      (object context)
      "apps"
      (any_database ∷ [])
    ≡ ok generated
unfolding generate_ref_inputs format_alias get_field string_eq
generates_beside = refl

abbrev db : String → Value
db host = object (field "host" (str host) end)

abbrev built : Collector
built = record {
  input_model = field "database" (db "db2") (
      field first_alias (db "db1")
        (field second_alias (db "db2") (field oidc_alias (db "db1") end)));
  input_list_model = field "database" (array (item (db "db2") (item (db "db1") nil))) end;
  watched =
      to audit ∷ to main ∷ missing "main" ∷ to main ∷ missing "audit" ∷ to audit ∷ to login ∷ [];
  effective = to audit ∷ to main ∷ to audit ∷ to login ∷ [];
  messages = [];
}

builds : build_input_model cluster inputs ≡ ok built
unfolding build_input_model handle_inputs handle_input bim_handle_connection_ref
    bim_handle_contract_connection fetch_connection_ref handle_lists listed bim_filter_connection
    select consider is_possible conclude elect elect_all parse_value parse_values set_field
    string_eq ref_input
builds = refl

found : get_field "database" built.input_model ≡ some (db "db2")
unfolding get_field string_eq
found = refl

build_input_model-gate_example : All (IsSettled cluster built) inputs
build_input_model-gate_example = build_input_model-gate cluster inputs built builds refl

build_input_model-elected_example : ComesFrom cluster inputs "database" (db "db2")
build_input_model-elected_example =
    build_input_model-elected cluster inputs built "database" (db "db2") builds found

abbrev texts : Texts
texts = record {
  ref_error = λ e. "no reference";
  build_error = λ e. "no input";
  apply_error = λ e. "no substitution";
  message = λ m. "waiting";
}

abbrev sources : Sources
sources = record {
  param_decls = dbs ∷ [];
  context_decls = oidc ∷ [];
  parameters = parameters;
  context = context;
  namespace = "apps";
}

distinct_of :
    (g : Generated)
    → generated_of unary cluster texts sources (any_database ∷ []) ≡ ok g
    → NodupAliases g.bindings
distinct_of g h =
    subst (λ (x : Generated). NodupAliases x.bindings) (ok-injective (sym generates_beside ∙ h))
      distinct

resolve_inputs-IsResolved_example :
    ((ending : Ending) × (resolve_inputs unary cluster texts sources (any_database ∷ []) operation
        ≡ err ending)
      × IsEarly unary cluster texts sources (any_database ∷ []) operation ending)
    ⊎ ((r : Resolved) × (resolve_inputs unary cluster texts sources (any_database ∷ []) operation
          ≡ ok r)
        × IsResolved unary cluster texts sources (any_database ∷ []) operation r)
resolve_inputs-IsResolved_example =
    resolve_inputs-IsResolved unary cluster texts sources (any_database ∷ []) operation dbs-plain
      oidc-plain parameters-IsSized context-IsSized distinct_of
