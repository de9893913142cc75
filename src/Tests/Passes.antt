-- ===== src/Tests/Passes.antt =====
-- internal/controller/release_controller.go at concrete passes over one Release. The stand-ins for
-- the sorts leave a list as it is, and the one for `strconv.Itoa` writes a number as its `1`s.
use text.Mathlib.TextEquality.{eq_iff}
use mathlib.Core.List.Perm
use native.Mathlib.Decide.{ℕ_discrete}
use kubocd.Reconcile.Pass.{
  store_rendered, remove_duplicates, compact, check_dependencies, check_conditions, spawn,
  settle_states, store_states, manage_outputs, store_outputs, delete_orphans,
}
use kubocd.Reconcile.Outputs.{
  compute_ready_connection, count_connected, created, handle_output,
  handle_output_cluster_connection, handle_output_connection, handle_outputs, orphans,
  output_message, patched,
}
use kubocd.Reconcile.Helm.{
  handle_modules, handle_helm_release, compute_ready_helm_releases, count_ready, helm_message,
}
use kubocd.Reconcile.Status.{insert, drop, helm_state_eq, lookup, output_eq, same_map, strings_eq}
use kubocd.Common.{ℕ, zero, suc, String, ◌<>◌, ◌≡◌, ◌≢◌, refl, ◌⊎◌, ◌↔◌, true, false}
use kubocd.Common.{none, some, [], ◌∷◌, ◌++◌, ok, err, All, arith, string_eq, nat_eq}
use kubocd.Config.Spec.{NamespacedName}
use kubocd.Config.Store.{initial_configuration, is_cluster_role}
use kubocd.Roles.{RolesByRelease, is_dependency_ok, missing_dependency, provided}
use kubocd.Roles.Laws.{Holds}
use kubocd.Inputs.Connection.{Reference}
use kubocd.Reconcile.Status.{Status, ReleaseOperation, Ending, phase_suspended}
use kubocd.Reconcile.Report.{Memory, Ended, finish, update_status, done}
use kubocd.Reconcile.Helm.{ModuleCalls, helm_found}
use kubocd.Reconcile.Outputs.{OutputCalls, output_found}
use kubocd.Reconcile.Pass.{
  elements, Library, Release, Rendered, Answers, deploy, ending_of, handle_helm_releases,
}
use kubocd.Reconcile.Deployed.{IsDeployed, deploy-IsDeployed}
use kubocd.Reconcile.Registered.{deploy-registered}
use kubocd.Reconcile.Endings.{WaitsForOthers, IsStored, operation_of, phase_of, message_of}
use kubocd.Reconcile.Retried.{deploy-retried}
use kubocd.Reconcile.Deletion.{
  DeletionAnswers, deleted, not_found, IsDeletion, reconcile_deletion,
  reconcile_deletion-IsDeletion,
}
use kubocd.Reconcile.Suspension.{gates, suspended-WritesNil}

abbrev ones : ℕ → String
ones zero = ""
ones (suc n) = "1" <> ones n

abbrev library : Library
library = record {
  itoa = ones;
  sort = λ l. l;
  All-of_sort = λ P l h. h;
  sort-All = λ P l h. h;
  iterate = λ l. l;
  iterate-perm = Perm.refl;
  sort_entries = λ l. l;
}

abbrev full_name : NamespacedName → String
full_name name = name.namespace <> ("/" <> name.name)

abbrev web : Release
web = record {
  name = record { namespace = "apps"; name = "web" };
  suspended = false;
  description = "";
  roles = "web" ∷ [];
  dependencies = "database" ∷ [];
}

abbrev store : RolesByRelease
store = ("apps/db", "database" ∷ []) ∷ []

abbrev rendered : Rendered
rendered = record {
  usage = none;
  description = "a web server";
  roles = none;
  dependencies = some ("database" ∷ []);
}

abbrev main : ModuleCalls
main = record {
  name = "main";
  enabled = true;
  calls = record {
    get = helm_found true;
    create = ok tt;
    patch = ok (record { ready = "True"; status = "" });
    delete = ok tt;
  };
}

abbrev url : OutputCalls
url = record {
  name = "url";
  kind = "Connection";
  get = output_found false;
  create = ok tt;
  patch = ok ("READY", "");
}

abbrev connection : String → Reference
connection name = record { kind = "Connection"; name = name; namespace = "apps" }

abbrev answers : Answers
answers = record {
  conditions = ok (true, "") ∷ [];
  modules = main ∷ [];
  outputs = url ∷ [];
  connections = ok (connection "kcd-web-url" ∷ connection "kcd-web-old" ∷ []);
  cluster_connections = ok [];
  unchecked = "not checked yet";
}

abbrev pub status : Status
status = record {
  phase = "";
  message = "";
  usage = none;
  print_description = "";
  roles = none;
  dependencies = none;
  ready_releases = "";
  helm_release_states = some [];
  ready_output_connections = "";
  output_connection_by_name = none;
  watched_input_connections = none;
  effective_input_connections = none;
}

abbrev pub operation : ReleaseOperation
operation = record {
  status = status;
  force_update = false;
  roles = [];
  dependencies = [];
  message = "";
  connection_names = [];
  cluster_connection_names = [];
  deleted_connections = [];
  deleted_cluster_connections = [];
}

abbrev deployed : ReleaseOperation
deployed = record {
  status = record {
    phase = "";
    message = "";
    usage = none;
    print_description = "a web server";
    roles = some ("web" ∷ []);
    dependencies = some ("database" ∷ []);
    ready_releases = "1/1";
    helm_release_states = some (("main", record { ready = "True"; status = "" }) ∷ []);
    ready_output_connections = "1/1";
    output_connection_by_name = some (
        ("url", record { reference = connection "kcd-web-url"; phase = "READY"; message = "" })
        ∷ []);
    watched_input_connections = none;
    effective_input_connections = none;
  };
  force_update = true;
  roles = "web" ∷ [];
  dependencies = "database" ∷ [];
  message = "";
  connection_names = "kcd-web-url" ∷ [];
  cluster_connection_names = [];
  deleted_connections = connection "kcd-web-old" ∷ [];
  deleted_cluster_connections = [];
}

deploys : deploy library initial_configuration store web rendered answers operation ≡ ok deployed
unfolding deploy string_eq nat_eq ℕ_discrete missing_dependency is_dependency_ok is_cluster_role
    provided handle_helm_releases store_rendered remove_duplicates compact check_dependencies
    check_conditions spawn settle_states store_states manage_outputs store_outputs delete_orphans
    compute_ready_connection count_connected created handle_output handle_output_cluster_connection
    handle_output_connection handle_outputs orphans output_message patched handle_modules
    handle_helm_release compute_ready_helm_releases count_ready helm_message insert drop
    helm_state_eq lookup output_eq same_map strings_eq
deploys = refl

named : All (λ d. d ≢ "") (elements rendered.dependencies ++ web.dependencies)
named = let other : "database" ≢ "" = ground (arith, eq_iff "database" "") in (other, (other, tt))

deploy-IsDeployed_example : IsDeployed initial_configuration store web rendered answers deployed
deploy-IsDeployed_example =
    deploy-IsDeployed library initial_configuration store web rendered answers operation deployed
      named refl refl deploys

abbrev memory : Memory
memory = record { role_store = store; status_failures = [] }

abbrev this : String
this = full_name web.name

abbrev passed : Ended
passed =
    finish full_name web.name
      (ending_of library
        (deploy library initial_configuration store web rendered answers operation))
      memory none

deploy-registered_example : Holds passed.memory.role_store this ("web" ∷ []) ↔ (
    ((this ≡ this)
      × ((op' : ReleaseOperation) × (deploy library initial_configuration store web rendered answers
              operation
            ≡ ok op')
          × (op'.roles ≡ "web" ∷ [])))
    ⊎ ((¬ (this ≡ this)) × Holds store this ("web" ∷ [])))
deploy-registered_example =
    deploy-registered library initial_configuration store web rendered answers operation full_name
      memory none this ("web" ∷ [])

ends_done : passed.outcome ≡ done
unfolding finish update_status ending_of string_eq
ends_done = rw deploys refl

deploy-retried_example :
    let ending =
      ending_of library
        (deploy library initial_configuration store web rendered answers operation) in
    WaitsForOthers ending
    × IsStored (operation_of ending) (phase_of ending) (message_of ending) none passed
deploy-retried_example =
    deploy-retried library initial_configuration store web rendered answers operation full_name
      memory none ends_done

abbrev deletion_answers : DeletionAnswers
deletion_answers = record {
  has_finalizer = true;
  cluster_connections = ok (("kcd-apps-web-url", deleted) ∷ ("kcd-apps-web-old", not_found) ∷ []);
  update = none;
}

reconcile_deletion-IsDeletion_example :
    IsDeletion full_name web.name memory deletion_answers
      (reconcile_deletion full_name web.name memory deletion_answers)
reconcile_deletion-IsDeletion_example =
    reconcile_deletion-IsDeletion full_name web.name memory deletion_answers

abbrev paused : Release
paused = record web { suspended = true }

suspended-WritesNil_example :
    (ending : Ending) × (deploy library initial_configuration store paused rendered answers
        operation
      ≡ err ending)
    × ((gates library initial_configuration store paused rendered answers operation ≡ err ending)
        ⊎ ((st : Status) × ((finish full_name paused.name ending memory none).written ≡ some st)
            × (st.phase ≡ phase_suspended)
            × (st.helm_release_states ≡ none)))
suspended-WritesNil_example =
    suspended-WritesNil library full_name initial_configuration store paused rendered answers
      operation [] memory refl refl
