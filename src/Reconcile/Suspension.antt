-- ===== src/Reconcile/Suspension.antt =====
-- A suspended Release in `reconcile2` of internal/controller/release_controller.go.
use kubocd.Common.{
  String, true, none, some, ◌≡◌, sym, >>=-eq-ok, ap, ◌∙◌, refl, ◌⊎◌, inl, inr, arith, string_eq,
}
use kubocd.Common.{Result, ok, err, ◌>>=◌, Result-cases}
use kubocd.Config.Spec.{NamespacedName, Configuration}
use kubocd.Roles.{RolesByRelease}
use kubocd.Reconcile.Status.{Status, ReleaseOperation, Ending, update, phase_suspended}
use kubocd.Reconcile.Helm.{HelmStates}
use kubocd.Reconcile.Report.{Memory, finish, update_status}
use kubocd.Reconcile.Stages.{check_dependencies-ok, check_conditions-ok}
use kubocd.Reconcile.Pass.{
  Library, Release, Rendered, Answers, handle_helm_releases, spawn, settle_states, store_states,
  deploy, store_rendered, check_dependencies, check_conditions,
}

-- The part of a pass before the HelmReleases: it waits for the dependencies and the conditions.
abbrev pub gates :
    Library
    → Configuration
    → RolesByRelease
    → Release
    → Rendered
    → Answers
    → ReleaseOperation
    → Result Ending ReleaseOperation
gates lib cfg store release rendered answers op =
    check_dependencies lib cfg store (store_rendered lib release rendered op) >>= λ op₁.
    check_conditions lib 0 answers.conditions op₁

handle_helm_releases-WritesNil :
    (lib : Library) (full_name : NamespacedName → String) (release : Release) (answers : Answers)
    (op : ReleaseOperation) (states : HelmStates) (m : Memory)
    → release.suspended ≡ true
    → op.status.helm_release_states ≡ some states
    → (ending : Ending) × (handle_helm_releases lib release answers op ≡ err ending)
      × ((st : Status) × ((finish full_name release.name ending m none).written ≡ some st)
          × (st.phase ≡ phase_suspended)
          × (st.helm_release_states ≡ none))
unfolding handle_helm_releases spawn settle_states store_states finish update_status
handle_helm_releases-WritesNil lib full_name release answers op states m suspended known =
    let op' = store_states lib none op in
    (
      update op' phase_suspended op'.message,
      (rw suspended refl),
      (
        record op'.status { phase = phase_suspended; message = op'.message },
        rw known (ground arith),
        refl,
        refl,
      ),
    )

-- The gates change neither the status of the HelmReleases nor anything after the rendered values.
gates-states :
    (lib : Library) (cfg : Configuration) (store : RolesByRelease) (release : Release)
    (rendered : Rendered) (answers : Answers) (op op₂ : ReleaseOperation)
    → gates lib cfg store release rendered answers op ≡ ok op₂
    → op₂.status.helm_release_states ≡ op.status.helm_release_states
unfolding store_rendered
gates-states lib cfg store release rendered answers op op₂ h =
    let start = store_rendered lib release rendered op in
    let (op₁, h₁, h₂) = >>=-eq-ok (check_dependencies lib cfg store start) _ h in
    let (_, e₁) = check_dependencies-ok lib cfg store start op₁ h₁ in
    let (_, e₂) = check_conditions-ok lib 0 answers.conditions op₁ op₂ h₂ in
    sym (ap (λ x. x.status.helm_release_states) (e₁ ∙ e₂))

deploy-of_gates :
    (lib : Library) (cfg : Configuration) (store : RolesByRelease) (release : Release)
    (rendered : Rendered) (answers : Answers) (op op₂ : ReleaseOperation) (ending : Ending)
    → gates lib cfg store release rendered answers op ≡ ok op₂
    → handle_helm_releases lib release answers op₂ ≡ err ending
    → deploy lib cfg store release rendered answers op ≡ err ending
unfolding deploy
deploy-of_gates lib cfg store release rendered answers op op₂ ending h stop =
    let start = store_rendered lib release rendered op in
    let (op₁, h₁, h₂) = >>=-eq-ok (check_dependencies lib cfg store start) _ h in
    rw (h₁, h₂, stop) refl

deploy-of_stop :
    (lib : Library) (cfg : Configuration) (store : RolesByRelease) (release : Release)
    (rendered : Rendered) (answers : Answers) (op : ReleaseOperation) (ending : Ending)
    → gates lib cfg store release rendered answers op ≡ err ending
    → deploy lib cfg store release rendered answers op ≡ err ending
unfolding deploy
deploy-of_stop lib cfg store release rendered answers op ending h =
    elim (Result-cases
      (check_dependencies lib cfg store (store_rendered lib release rendered op))) [
        | inl (op₁, h₁) ↦ let h₂ = rw h₁ at h in rw (h₁, h₂) refl
        | inr (e, h₁) ↦ let h₂ = rw h₁ at h in rw h₁ h₂
      ]

-- A pass, from the rendered values on, over a suspended Release whose status holds a map of the
-- states of its HelmReleases either ends before the HelmReleases, where a dependency is missing or
-- a condition is not met or fails, or it ends with a forced update of the status to the phase
-- SUSPENDED: if this update succeeds, it writes nil in place of the map, whatever was up to date.
pub suspended-WritesNil :
    (lib : Library) (full_name : NamespacedName → String) (cfg : Configuration)
    (store : RolesByRelease) (release : Release) (rendered : Rendered) (answers : Answers)
    (op : ReleaseOperation) (states : HelmStates) (m : Memory)
    → release.suspended ≡ true
    → op.status.helm_release_states ≡ some states
    → (ending : Ending) × (deploy lib cfg store release rendered answers op ≡ err ending)
      × ((gates lib cfg store release rendered answers op ≡ err ending)
          ⊎ ((st : Status) × ((finish full_name release.name ending m none).written ≡ some st)
              × (st.phase ≡ phase_suspended)
              × (st.helm_release_states ≡ none)))
suspended-WritesNil lib full_name cfg store release rendered answers op states m suspended known =
    elim (Result-cases (gates lib cfg store release rendered answers op)) [
      | inr (ending, h) ↦
          (ending, deploy-of_stop lib cfg store release rendered answers op ending h, inl h)
      | inl (op₂, h) ↦
          let (ending, stop, writes) =
            handle_helm_releases-WritesNil lib full_name release answers op₂ states m suspended
              (gates-states lib cfg store release rendered answers op op₂ h ∙ known) in
          (
            ending,
            deploy-of_gates lib cfg store release rendered answers op op₂ ending h stop,
            inr writes,
          )
    ]
