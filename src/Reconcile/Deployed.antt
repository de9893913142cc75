-- ===== src/Reconcile/Deployed.antt =====
-- What holds where the pass over a Release gets to its end, the phase READY.
use mathlib.Core.Path.{subst, ap₂}
use kubocd.Common.{String, true, false, some, ◌≡◌, ◌≢◌, sym, ap, ◌∙◌, ◌⊎◌, inl, inr}
use kubocd.Common.{List, [], ◌++◌, ok, >>=-eq-ok, All, All-map, string_eq}
use kubocd.Config.Spec.{NamespacedName, Configuration}
use kubocd.Roles.{RolesByRelease, missing_dependency, is_dependency_ok}
use kubocd.Roles.Missing.{All-fulfilled}
use kubocd.Package.Kinds.{kind_cluster_connection}
use kubocd.Inputs.Connection.{Reference}
use kubocd.Reconcile.Pass.{elements}
use kubocd.Reconcile.Status.{ReleaseOutputConnection}
use kubocd.Reconcile.Status.{ReleaseOperation}
use kubocd.Reconcile.Helm.{HelmStates}
use kubocd.Reconcile.Outputs.{OutputCalls, Outputs, build_connection_name}
use kubocd.Reconcile.Outputs.{build_cluster_connection_name, orphans, handle_outputs, no_outputs}
use kubocd.Reconcile.Pass.{
  Library, Release, Rendered, Answers, remove_duplicates, store_rendered, store_states,
  store_outputs,
}
use kubocd.Reconcile.Pass.{check_dependencies, check_conditions, handle_helm_releases}
use kubocd.Reconcile.Pass.{manage_outputs, deploy}
use kubocd.Reconcile.Stages.{Green, HelmReady, Connected, compact-All, All-of_compact}
use kubocd.Reconcile.Stages.{check_dependencies-ok, check_conditions-ok, handle_helm_releases-ok}
use kubocd.Reconcile.Stages.{manage_outputs-ok, delete_orphans-ok}
use kubocd.Reconcile.Marks.{IsMarked, handle_outputs-IsMarked, orphans-ne}

-- No connection of the output is among the deleted ones.
abbrev pub IsKept : NamespacedName → ReleaseOperation → OutputCalls → Type 0
IsKept release op o =
    ((o.kind ≡ kind_cluster_connection)
      × All
          (λ (c : Reference).
            c.name ≢ build_cluster_connection_name release.name release.namespace o.name)
          op.deleted_cluster_connections)
    ⊎ ((o.kind ≢ kind_cluster_connection)
        × All (λ (c : Reference). c.name ≢ build_connection_name release.name o.name)
            op.deleted_connections)

pub record IsDeployed (cfg : Configuration) (store : RolesByRelease) (release : Release)
    (rendered : Rendered) (answers : Answers) (op : ReleaseOperation) : Type 0 where
  pub active : release.suspended ≡ false
  pub fulfilled :
      All
        (λ d. is_dependency_ok cfg store d ≡ true)
        (elements rendered.dependencies ++ release.dependencies)
  pub green : All Green answers.conditions
  pub helm_ready :
      (states : HelmStates) × (op.status.helm_release_states ≡ some states) × All HelmReady states
  pub connected :
      (by_name : List (String × ReleaseOutputConnection)) × (op.status.output_connection_by_name
        ≡ some by_name)
      × All Connected by_name
  pub own_kept : All (IsKept release.name op) answers.outputs

keep_marked :
    (outputs : Outputs) (release : NamespacedName) (l₁ l₂ : List Reference) (op : ReleaseOperation)
    (o : OutputCalls)
    → op.deleted_connections ≡ orphans outputs.connection_names l₁
    → op.deleted_cluster_connections ≡ orphans outputs.cluster_connection_names l₂
    → IsMarked release outputs o
    → IsKept release op o
keep_marked outputs release l₁ l₂ op o e₁ e₂ (inl (cluster, marked)) =
    inl (cluster, subst (All _) (sym e₂) (orphans-ne outputs.cluster_connection_names l₂ _ marked))
keep_marked outputs release l₁ l₂ op o e₁ e₂ (inr (namespaced, marked)) =
    inr (namespaced, subst (All _) (sym e₁) (orphans-ne outputs.connection_names l₁ _ marked))

-- The sort and the removal of duplicates lose no dependency.
fulfilled-All :
    (lib : Library) (cfg : Configuration) (store : RolesByRelease) (l : List String)
    → All (λ d. d ≢ "") l
    → missing_dependency cfg store (remove_duplicates lib l) ≡ ""
    → All (λ d. is_dependency_ok cfg store d ≡ true) l
unfolding remove_duplicates
fulfilled-All lib cfg store l named e = lib.All-of_sort _ l (
    All-of_compact _ (lib.sort l)
      (All-fulfilled cfg store _ (compact-All _ (lib.sort l) (lib.sort-All _ l named)) e))

-- The operation at the end, from the results of the stages.
deployed_end :
    (lib : Library) (release : Release) (answers : Answers)
    (start op₁ op₂ op₃ op₄ op' : ReleaseOperation) (states : HelmStates) (outputs : Outputs)
    (l₁ l₂ : List Reference)
    → start.deleted_connections ≡ []
    → start.deleted_cluster_connections ≡ []
    → start ≡ op₁
    → op₁ ≡ op₂
    → store_states lib (some states) op₂ ≡ op₃
    → handle_outputs lib.itoa release.name 0 answers.outputs no_outputs ≡ ok outputs
    → store_outputs lib answers outputs op₃ ≡ op₄
    → record op₄ {
      deleted_connections = op₄.deleted_connections ++ orphans op₄.connection_names l₁;
      deleted_cluster_connections =
          op₄.deleted_cluster_connections ++ orphans op₄.cluster_connection_names l₂;
    }
      ≡ op'
    → (op'.status.helm_release_states ≡ some states)
      × (op'.status.output_connection_by_name ≡ some outputs.by_name)
      × All (IsKept release.name op') answers.outputs
unfolding store_states store_outputs
deployed_end lib release answers start op₁ op₂ op₃ op₄ op' states outputs l₁ l₂ none₁ none₂ e₁ e₂ e₃
      handled e₄ e₅ =
    let quiet₁ =
      sym (
        ap (λ x. x.deleted_connections) e₁
        ∙ ap (λ x. x.deleted_connections) e₂
        ∙ ap (λ x. x.deleted_connections) e₃
        ∙ ap (λ x. x.deleted_connections) e₄)
      ∙ none₁ in
    let left₁ =
      sym (ap (λ x. x.deleted_connections) e₅)
      ∙ ap₂ (λ d n. d ++ orphans n l₁) quiet₁ (sym (ap (λ x. x.connection_names) e₄)) in
    let quiet₂ =
      sym (
        ap (λ x. x.deleted_cluster_connections) e₁
        ∙ ap (λ x. x.deleted_cluster_connections) e₂
        ∙ ap (λ x. x.deleted_cluster_connections) e₃
        ∙ ap (λ x. x.deleted_cluster_connections) e₄)
      ∙ none₂ in
    let left₂ =
      sym (ap (λ x. x.deleted_cluster_connections) e₅)
      ∙ ap₂ (λ d n. d ++ orphans n l₂) quiet₂ (sym (ap (λ x. x.cluster_connection_names) e₄)) in
    (
      sym (
          ap (λ x. x.status.helm_release_states) e₃
          ∙ ap (λ x. x.status.helm_release_states) e₄
          ∙ ap (λ x. x.status.helm_release_states) e₅),
      sym (
          ap (λ x. x.status.output_connection_by_name) e₄
          ∙ ap (λ x. x.status.output_connection_by_name) e₅),
      All-map _ _ answers.outputs
          (λ o marked. keep_marked outputs release.name l₁ l₂ op' o left₁ left₂ marked)
          (handle_outputs-IsMarked lib.itoa release.name 0 answers.outputs no_outputs outputs
            handled),
    )

-- Where no dependency of the rendered package and of the Release is empty, and the pass starts
-- without deletions and gets to its end, the phase READY: the Release is not suspended, all its
-- dependencies and those of the package are fulfilled, all conditions hold, all HelmReleases and
-- all output connections that the status shows are ready, and no connection is deleted that is one
-- of an output.
pub deploy-IsDeployed :
    (lib : Library) (cfg : Configuration) (store : RolesByRelease) (release : Release)
    (rendered : Rendered) (answers : Answers) (op op' : ReleaseOperation)
    → All (λ d. d ≢ "") (elements rendered.dependencies ++ release.dependencies)
    → op.deleted_connections ≡ []
    → op.deleted_cluster_connections ≡ []
    → deploy lib cfg store release rendered answers op ≡ ok op'
    → IsDeployed cfg store release rendered answers op'
unfolding deploy store_rendered
deploy-IsDeployed lib cfg store release rendered answers op op' named none₁ none₂ h =
    let start = store_rendered lib release rendered op in
    let dependencies = elements rendered.dependencies ++ release.dependencies in
    let (op₁, h₁, rest₁) = >>=-eq-ok (check_dependencies lib cfg store start) _ h in
    let (op₂, h₂, rest₂) = >>=-eq-ok (check_conditions lib 0 answers.conditions op₁) _ rest₁ in
    let (op₃, h₃, rest₃) = >>=-eq-ok (handle_helm_releases lib release answers op₂) _ rest₂ in
    let (op₄, h₄, h₅) = >>=-eq-ok (manage_outputs lib release answers op₃) _ rest₃ in
    let (fulfilled, e₁) = check_dependencies-ok lib cfg store start op₁ h₁ in
    let (green, e₂) = check_conditions-ok lib 0 answers.conditions op₁ op₂ h₂ in
    let (active, (states, ready, e₃)) = handle_helm_releases-ok lib release answers op₂ op₃ h₃ in
    let (outputs, handled, connected, e₄) = manage_outputs-ok lib release answers op₃ op₄ h₄ in
    let (l₁, l₂, _, _, e₅) = delete_orphans-ok lib answers op₄ op' h₅ in
    let (shown, by_name, kept) =
      deployed_end lib release answers start op₁ op₂ op₃ op₄ op' states outputs l₁ l₂ none₁ none₂ e₁
        e₂ e₃ handled e₄ e₅ in
    record {
      active = active;
      fulfilled = fulfilled-All lib cfg store dependencies named fulfilled;
      green = green;
      helm_ready = (states, shown, ready);
      connected = (outputs.by_name, by_name, connected);
      own_kept = kept;
    }
