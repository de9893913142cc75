-- ===== src/Reconcile/Stages.antt =====
-- What each stage of the pass has checked where it does not end the pass.
use mathlib.Core.Path.{subst}
use kubocd.Common.{ℕ, suc, ◌≤◌, String, Bool, true, false, some, ◌≡◌, refl, sym}
use kubocd.Common.{List, [], ◌∷◌, ◌++◌, Result, ok, err, ok-injective, err-ne-ok}
use kubocd.Common.{
  ◌==◌, ==→≡, string_eq, nat_eq, arith, All, length, Bool-cases, Result-cases, inl, inr,
}
use kubocd.Config.Spec.{Configuration}
use kubocd.Roles.{RolesByRelease, missing_dependency}
use kubocd.Inputs.Connection.{connection_phase_ready, Reference}
use kubocd.Reconcile.Status.{ReconcileError, ReleaseOperation, HelmReleaseState}
use kubocd.Reconcile.Status.{ReleaseOutputConnection}
use kubocd.Reconcile.Helm.{
  HelmStates, condition_true, count_ready, compute_ready_helm_releases, handle_modules,
}
use kubocd.Reconcile.Outputs.{
  Outputs, count_connected, compute_ready_connection, handle_outputs, orphans, no_outputs,
}
use kubocd.Reconcile.Pass.{Library, Release, Answers, compact, check_dependencies}
use kubocd.Reconcile.Pass.{
  check_conditions, spawn, settle_states, store_states, handle_helm_releases,
}
use kubocd.Reconcile.Pass.{store_outputs, manage_outputs, delete_orphans}

abbrev pub Green : Result ReconcileError (Bool × String) → Type 0
Green answer = (message : String) × (answer ≡ ok (true, message))

abbrev pub HelmReady : String × HelmReleaseState → Type 0
HelmReady entry = entry.1.ready ≡ condition_true

abbrev pub Connected : String × ReleaseOutputConnection → Type 0
Connected entry = entry.1.phase ≡ connection_phase_ready

count_ready-le : (states : HelmStates) → count_ready states ≤ length states
unfolding count_ready
count_ready-le [] = omega arith
count_ready-le ((k, state) ∷ states) = ground (arith, count_ready-le states)

count_ready-HelmReady :
    (states : HelmStates) → count_ready states ≡ length states → All HelmReady states
unfolding count_ready
count_ready-HelmReady [] h = tt
count_ready-HelmReady ((k, state) ∷ states) h = elim (Bool-cases (state.ready == condition_true)) [
  | inl e ↦ (==→≡ _ _ e, count_ready-HelmReady states (ground arith))
  | inr e ↦ absurd (ground (arith, count_ready-le states))
]

count_connected-le :
    (by_name : List (String × ReleaseOutputConnection)) → count_connected by_name ≤ length by_name
unfolding count_connected
count_connected-le [] = omega arith
count_connected-le ((k, c) ∷ by_name) = ground (arith, count_connected-le by_name)

count_connected-Connected :
    (by_name : List (String × ReleaseOutputConnection))
    → count_connected by_name ≡ length by_name
    → All Connected by_name
unfolding count_connected
count_connected-Connected [] h = tt
count_connected-Connected ((k, c) ∷ by_name) h =
    elim (Bool-cases (c.phase == connection_phase_ready)) [
      | inl e ↦ (==→≡ _ _ e, count_connected-Connected by_name (ground arith))
      | inr e ↦ absurd (ground (arith, count_connected-le by_name))
    ]

pub compact-All : (P : String → Type 0) (l : List String) → All P l → All P (compact l)
unfolding compact
compact-All P [] h = tt
compact-All P (s ∷ []) h = h
compact-All P (s ∷ t ∷ l) (hs, h) = elim (Bool-cases (s == t)) [
  | inl e ↦ rw (e, compact) (compact-All P (t ∷ l) h)
  | inr e ↦ rw (e, compact) ((hs, compact-All P (t ∷ l) h))
]

pub All-of_compact : (P : String → Type 0) (l : List String) → All P (compact l) → All P l
unfolding compact
All-of_compact P [] h = tt
All-of_compact P (s ∷ []) h = h
All-of_compact P (s ∷ t ∷ l) h = elim (Bool-cases (s == t)) [
  | inl e ↦
      let rest = All-of_compact P (t ∷ l) (rw (e, compact) at h) in
      (subst P (sym (==→≡ s t e)) rest.0, rest)
  | inr e ↦ let h' = rw (e, compact) at h in (h'.0, All-of_compact P (t ∷ l) h'.1)
]

module _ (lib : Library) where
  pub check_dependencies-ok :
      (cfg : Configuration) (store : RolesByRelease) (op op' : ReleaseOperation)
      → check_dependencies lib cfg store op ≡ ok op'
      → (missing_dependency cfg store op.dependencies ≡ "") × (op ≡ op')
  unfolding check_dependencies
  check_dependencies-ok cfg store op op' h =
      elim (Bool-cases (missing_dependency cfg store op.dependencies == "")) [
        | inl e ↦ (==→≡ _ _ e, ok-injective (rw (e, check_dependencies) at h))
        | inr e ↦ absurd (err-ne-ok (rw (e, check_dependencies) at h))
      ]

  pub check_conditions-ok :
      (idx : ℕ) (answers : List (Result ReconcileError (Bool × String))) (op op' : ReleaseOperation)
      → check_conditions lib idx answers op ≡ ok op'
      → All Green answers × (op ≡ op')
  unfolding check_conditions
  check_conditions-ok idx [] op op' h = (tt, ok-injective h)
  check_conditions-ok idx (err e ∷ answers) op op' h = absurd (err-ne-ok h)
  check_conditions-ok idx (ok (true, message) ∷ answers) op op' h =
      let (green, same) = check_conditions-ok (suc idx) answers op op' h in
      (((message, refl), green), same)
  check_conditions-ok idx (ok (false, message) ∷ answers) op op' h = absurd (err-ne-ok h)

  pub handle_helm_releases-ok :
      (release : Release) (answers : Answers) (op op' : ReleaseOperation)
      → handle_helm_releases lib release answers op ≡ ok op'
      → (release.suspended ≡ false)
        × ((states : HelmStates) × All HelmReady states × (store_states lib (some states) op ≡ op'))
  unfolding handle_helm_releases spawn settle_states compute_ready_helm_releases
  handle_helm_releases-ok release answers op op' h = elim (Bool-cases release.suspended) [
    | inl e ↦ absurd (err-ne-ok (rw (e, handle_helm_releases, spawn) at h))
    | inr e ↦ elim (Result-cases (handle_modules release.name.name answers.modules [])) [
      | inl (states, hs) ↦ elim (Bool-cases (count_ready states == length states)) [
        | inl all ↦ (
          e,
          (
            states,
            count_ready-HelmReady states (==→≡ _ _ all),
            ok-injective (rw (e, hs, all, settle_states, spawn) at h),
          ),
        )
        | inr some_wait ↦ absurd (err-ne-ok (rw (e, hs, some_wait, settle_states, spawn) at h))
      ]
      | inr (failure, hs) ↦ absurd (err-ne-ok (rw (e, hs, spawn) at h))
    ]
  ]

  pub manage_outputs-ok :
      (release : Release) (answers : Answers) (op op' : ReleaseOperation)
      → manage_outputs lib release answers op ≡ ok op'
      → (outputs : Outputs) × (handle_outputs lib.itoa release.name 0 answers.outputs no_outputs
          ≡ ok outputs)
        × All Connected outputs.by_name
        × (store_outputs lib answers outputs op ≡ op')
  unfolding manage_outputs compute_ready_connection
  manage_outputs-ok release answers op op' h =
      elim (Result-cases (handle_outputs lib.itoa release.name 0 answers.outputs no_outputs)) [
        | inr (failure, ho) ↦ absurd (err-ne-ok (rw (ho, manage_outputs) at h))
        | inl (outputs, ho) ↦
            elim (Bool-cases (count_connected outputs.by_name == length outputs.by_name)) [
              | inl all ↦ (
                outputs,
                ho,
                count_connected-Connected outputs.by_name (==→≡ _ _ all),
                ok-injective (rw (ho, all, manage_outputs) at h),
              )
              | inr some_wait ↦ absurd (err-ne-ok (rw (ho, some_wait, manage_outputs) at h))
            ]
      ]

  pub delete_orphans-ok :
      (answers : Answers) (op op' : ReleaseOperation)
      → delete_orphans lib answers op ≡ ok op'
      → (l₁ l₂ : List Reference) × (answers.connections ≡ ok l₁)
        × (answers.cluster_connections ≡ ok l₂)
        × (record op {
          deleted_connections = op.deleted_connections ++ orphans op.connection_names l₁;
          deleted_cluster_connections =
              op.deleted_cluster_connections ++ orphans op.cluster_connection_names l₂;
        }
            ≡ op')
  unfolding delete_orphans
  delete_orphans-ok answers op op' h = elim (Result-cases answers.connections) [
    | inr (e, h₁) ↦ absurd (err-ne-ok (rw (h₁, delete_orphans) at h))
    | inl (l₁, h₁) ↦ elim (Result-cases answers.cluster_connections) [
      | inr (e, h₂) ↦ absurd (err-ne-ok (rw (h₁, h₂, delete_orphans) at h))
      | inl (l₂, h₂) ↦ (l₁, l₂, h₁, h₂, ok-injective (rw (h₁, h₂, delete_orphans) at h))
    ]
  ]
