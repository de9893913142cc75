-- ===== src/Reconcile/Pass.antt =====
-- `reconcile2` of internal/controller/release_controller.go from the rendered inputs on, and the
-- deletion of a Release. What is written to the cluster, but for the status and the deletions, the
-- events and the log are left out; what the cluster and the templates answer is a parameter.
use kubocd.Common.{ℕ, suc, String, ◌<>◌, Bool, false, not, ◌||◌, Option, none, some}
use kubocd.Common.{List, [], ◌∷◌, ◌++◌, Result, ok, err, ◌>>=◌, ◌==◌, string_eq, if◌then◌else◌}
use kubocd.Common.{All}
use mathlib.Core.List.{Perm}
use kubocd.Config.Spec.{NamespacedName, Configuration}
use kubocd.Roles.{RolesByRelease, missing_dependency}
use kubocd.Inputs.Connection.{Reference}
use kubocd.Reconcile.Status.{ReconcileError, ReleaseOperation, Ending, report, update}
use kubocd.Reconcile.Status.{
  update_and_retry, same_map, same_nilable, same_slice, ReleaseOutputConnection,
}
use kubocd.Reconcile.Status.{strings_eq, references_eq, helm_state_eq, output_eq}
use kubocd.Reconcile.Status.{phase_ready, phase_wait_helm_releases, phase_wait_output_connections}
use kubocd.Reconcile.Status.{phase_wait_dependencies, phase_suspended, phase_wait_conditions}
use kubocd.Reconcile.Helm.{ModuleCalls, HelmStates, handle_modules, compute_ready_helm_releases}
use kubocd.Reconcile.Helm.{helm_message}
use kubocd.Reconcile.Outputs.{OutputCalls, Outputs, no_outputs, at_place, handle_outputs}
use kubocd.Reconcile.Outputs.{compute_ready_connection, output_message, orphans}

-- The parts of a Release that the pass reads.
pub record Release : Type 0 where
  pub name : NamespacedName
  pub suspended : Bool
  pub description : String
  pub roles : List String
  pub dependencies : List String

-- What `Package.Render` gives. A nil map or slice is `none`.
pub record Rendered : Type 0 where
  pub usage : Option (List (String × String))
  pub description : String
  pub roles : Option (List String)
  pub dependencies : Option (List String)

-- What the cluster answers in one pass: `CheckCondition` for each rendered condition, the answers
-- for the modules and the outputs, the two lists of the Release's connections, and what the code
-- says of an unchecked connection.
pub record Answers : Type 0 where
  pub conditions : List (Result ReconcileError (Bool × String))
  pub modules : List ModuleCalls
  pub outputs : List OutputCalls
  pub connections : Result String (List Reference)
  pub cluster_connections : Result String (List Reference)
  pub unchecked : String

-- `strconv.Itoa` and `slices.Sort`, which keeps the elements; a sort by the keys of entries; an
-- order in which a range over the states goes.
pub record Library : Type 1 where
  pub itoa : ℕ → String
  pub sort : List String → List String
  pub All-of_sort : (P : String → Type 0) (l : List String) → All P (sort l) → All P l
  pub sort-All : (P : String → Type 0) (l : List String) → All P l → All P (sort l)
  pub iterate : HelmStates → HelmStates
  pub iterate-perm : (states : HelmStates) → Perm (iterate states) states
  pub sort_entries :
      List (String × ReleaseOutputConnection) → List (String × ReleaseOutputConnection)

-- `slices.Compact`
unfoldable pub compact : List String → List String
compact [] = []
compact (s ∷ []) = s ∷ []
compact (s ∷ t ∷ l) = let rest = compact (t ∷ l) in if s == t then rest else s ∷ rest

-- A field of the status that gets a new value, and the `forceUpdate` of a changed one.
abbrev pub forced : Bool → Bool → Bool
forced changed force = changed || force

abbrev pub elements : Option (List String) → List String
elements none = []
elements (some l) = l

-- The slice with these elements that comes from an append to `slice`: `append` of nothing to nil is
-- nil, which the sort and `slices.Compact` keep.
abbrev pub appended : Option (List String) → List String → List String → Option (List String)
appended none [] l = none
appended none (s ∷ more) l = some l
appended (some slice) more l = some l

module _ (lib : Library) where
  unfoldable pub remove_duplicates : List String → List String
  remove_duplicates elements = compact (lib.sort elements)

  -- From the rendered values to the roles and the dependencies.
  unfoldable pub store_rendered : Release → Rendered → ReleaseOperation → ReleaseOperation
  unfolding same_map strings_eq
  store_rendered release rendered op =
      let st = op.status in
      let description =
        if release.description == "" then rendered.description else release.description in
      let roles = remove_duplicates (elements rendered.roles ++ release.roles) in
      let dependencies =
        remove_duplicates (elements rendered.dependencies ++ release.dependencies) in
      let roles_slice = appended rendered.roles release.roles roles in
      let dependencies_slice = appended rendered.dependencies release.dependencies dependencies in
      record op {
        roles = roles;
        dependencies = dependencies;
        status = record st {
          usage = rendered.usage;
          print_description = description;
          roles = roles_slice;
          dependencies = dependencies_slice;
        };
        force_update =
            op.force_update
            || not (same_nilable rendered.usage st.usage)
            || not (description == st.print_description)
            || not (same_slice roles_slice st.roles)
            || not (same_slice dependencies_slice st.dependencies);
      }

  unfoldable pub check_dependencies :
      Configuration → RolesByRelease → ReleaseOperation → Result Ending ReleaseOperation
  check_dependencies cfg store op =
      let missing = missing_dependency cfg store op.dependencies in
      if missing == ""
      then ok op
      else err (
          update_and_retry op phase_wait_dependencies
            ("Waiting for the role '" <> (missing <> "' to be ready")))

  unfoldable pub check_conditions :
      ℕ
      → List (Result ReconcileError (Bool × String))
      → ReleaseOperation
      → Result Ending ReleaseOperation
  check_conditions idx [] op = ok op
  check_conditions idx (answer ∷ answers) op =
      let rest = check_conditions (suc idx) answers op in
      elim answer [
        | err e ↦ err (report op (at_place lib.itoa "condition" idx e))
        | ok r ↦
            if r.0
            then rest
            else err (
                update_and_retry op phase_wait_conditions
                  ("Waiting for cond.#" <> (lib.itoa (suc idx) <> (": " <> r.1))))
      ]

  -- The states of the HelmReleases, nil for a suspended Release.
  unfoldable pub spawn : Release → Answers → ReleaseOperation → Result Ending (Option HelmStates)
  spawn release answers op =
      if release.suspended
      then ok none
      else elim (handle_modules release.name.name answers.modules []) [
        | err e ↦ err (report op e)
        | ok states ↦ ok (some states)
      ]

  abbrev pub states_of : Option HelmStates → HelmStates
  states_of none = []
  states_of (some states) = states

  unfoldable pub store_states : Option HelmStates → ReleaseOperation → ReleaseOperation
  store_states states op =
      let st = op.status in
      let ready_releases = (compute_ready_helm_releases lib.itoa (states_of states)).0 in
      record op {
        message = helm_message (lib.iterate (states_of states));
        status = record st { ready_releases = ready_releases; helm_release_states = states };
        force_update =
            op.force_update
            || not (ready_releases == st.ready_releases)
            || not (same_nilable states st.helm_release_states);
      }

  -- The states in the status, and the returns for a suspended Release and for one that is not ready.
  unfoldable pub settle_states :
      Release → ReleaseOperation → Option HelmStates → Result Ending ReleaseOperation
  unfolding store_states
  settle_states release op states =
      let op' = store_states states op in
      if release.suspended
      then err (update op' phase_suspended op'.message)
      else if not (compute_ready_helm_releases lib.itoa (states_of states)).1
      then err (update op' phase_wait_helm_releases op'.message)
      else ok op'

  unfoldable pub handle_helm_releases :
      Release → Answers → ReleaseOperation → Result Ending ReleaseOperation
  unfolding spawn settle_states
  handle_helm_releases release answers op = spawn release answers op >>= settle_states release op

  unfoldable pub store_outputs : Answers → Outputs → ReleaseOperation → ReleaseOperation
  store_outputs answers outputs op =
      let st = op.status in
      let ready = (compute_ready_connection lib.itoa outputs.by_name).0 in
      record op {
        message = output_message answers.unchecked (lib.sort_entries outputs.by_name) op.message;
        connection_names = outputs.connection_names;
        cluster_connection_names = outputs.cluster_connection_names;
        status = record st {
          ready_output_connections = ready;
          output_connection_by_name = some outputs.by_name;
        };
        force_update =
            op.force_update
            || not (ready == st.ready_output_connections)
            || not (same_nilable (some outputs.by_name) st.output_connection_by_name);
      }

  unfoldable pub manage_outputs :
      Release → Answers → ReleaseOperation → Result Ending ReleaseOperation
  unfolding store_outputs
  manage_outputs release answers op =
      elim (handle_outputs lib.itoa release.name 0 answers.outputs no_outputs) [
        | err e ↦ err (report op e)
        | ok outputs ↦
            let op' = store_outputs answers outputs op in
            if not (compute_ready_connection lib.itoa outputs.by_name).1
            then err (update op' phase_wait_output_connections op'.message)
            else ok op'
      ]

  abbrev list_error : String → String → ReconcileError
  list_error message reason = record { message = message; fatal = false; event_reason = reason }

  -- The deletion of the orphans: their errors are only logged.
  unfoldable pub delete_orphans : Answers → ReleaseOperation → Result Ending ReleaseOperation
  delete_orphans answers op = elim answers.connections [
    | err e ↦
        err (report op (list_error ("could not list its Connections: " <> e) "ConnectionAccess"))
    | ok connections ↦
        let op' = record op {
          deleted_connections = op.deleted_connections ++ orphans op.connection_names connections;
        } in
        elim answers.cluster_connections [
          | err e ↦ err (
              report op' (
                list_error ("could not list its ClusterConnections: " <> e)
                  "ClusterConnectionAccess"))
          | ok cluster_connections ↦ ok (record op' {
            deleted_cluster_connections =
                op'.deleted_cluster_connections
                ++ orphans op.cluster_connection_names cluster_connections;
          })
        ]
  ]

  -- From the rendered values to the end.
  unfoldable pub deploy :
      Configuration
      → RolesByRelease
      → Release
      → Rendered
      → Answers
      → ReleaseOperation
      → Result Ending ReleaseOperation
  deploy cfg store release rendered answers op = do
    op₁ ← check_dependencies cfg store (store_rendered release rendered op)
    op₂ ← check_conditions 0 answers.conditions op₁
    op₃ ← handle_helm_releases release answers op₂
    op₄ ← manage_outputs release answers op₃
    delete_orphans answers op₄

  -- The return at the end of the pass.
  unfoldable pub ending_of : Result Ending ReleaseOperation → Ending
  ending_of (ok op) = update op phase_ready ""
  ending_of (err ending) = ending
