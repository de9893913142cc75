-- ===== src/Reconcile/Registered.antt =====
-- A Release is registered after a pass exactly if the pass got to its end.
use mathlib.Core.Path.{subst}
use text.Mathlib.TextEquality.{eq_iff}
use kubocd.Common.{
  ℕ, suc, String, Bool, true, false, Option, ◌≡◌, ◌≢◌, refl, ap, ◌∙◌, ◌↔◌, inl, inr, ◌⊎◌,
}
use kubocd.Common.{
  List, [], ◌∷◌, Result, ok, err, ◌>>=◌, >>=-eq-err, ok-ne-err, err-ne-ok, ok-injective,
  err-injective, arith, string_eq,
}
use kubocd.Common.{◌==◌, nat_eq, Bool-cases, Result-cases}
use kubocd.Config.Spec.{NamespacedName, Configuration}
use kubocd.Roles.{RolesByRelease, missing_dependency}
use kubocd.Roles.Laws.{Holds}
use kubocd.Reconcile.Status.{ReconcileError, ReleaseOperation, Ending}
use kubocd.Reconcile.Status.{phase_ready, phase_error, phase_wait_helm_releases, phase_suspended}
use kubocd.Reconcile.Status.{phase_wait_output_connections, phase_wait_dependencies}
use kubocd.Reconcile.Status.{phase_wait_conditions}
use kubocd.Reconcile.Report.{Memory, finish}
use kubocd.Reconcile.Helm.{HelmStates, compute_ready_helm_releases, handle_modules}
use kubocd.Reconcile.Outputs.{compute_ready_connection, handle_outputs, no_outputs}
use kubocd.Reconcile.Pass.{Library, Release, Rendered, Answers, check_dependencies}
use kubocd.Reconcile.Pass.{
  check_conditions, spawn, settle_states, handle_helm_releases, manage_outputs,
}
use kubocd.Reconcile.Pass.{delete_orphans, deploy, ending_of, store_rendered, states_of}
use kubocd.Reconcile.Endings.{phase_of, operation_of, finish-registered}

abbrev NotReady : Ending → Type 0
NotReady ending = phase_of ending ≢ phase_ready

error-ne-ready : phase_error ≢ phase_ready
error-ne-ready = ground (arith, eq_iff phase_error phase_ready)

wait_dependencies-ne-ready : phase_wait_dependencies ≢ phase_ready
wait_dependencies-ne-ready = ground (arith, eq_iff phase_wait_dependencies phase_ready)

wait_conditions-ne-ready : phase_wait_conditions ≢ phase_ready
wait_conditions-ne-ready = ground (arith, eq_iff phase_wait_conditions phase_ready)

wait_helm_releases-ne-ready : phase_wait_helm_releases ≢ phase_ready
wait_helm_releases-ne-ready = ground (arith, eq_iff phase_wait_helm_releases phase_ready)

wait_outputs-ne-ready : phase_wait_output_connections ≢ phase_ready
wait_outputs-ne-ready = ground (arith, eq_iff phase_wait_output_connections phase_ready)

suspended-ne-ready : phase_suspended ≢ phase_ready
suspended-ne-ready = ground (arith, eq_iff phase_suspended phase_ready)

-- The only end of a stage.
ends :
    {A : Type 0} {ending : Ending}
    → NotReady ending
    → (other : Ending) → ◌≡◌ {A = Result Ending A} (err ending) (err other)
    → NotReady other
ends h other e = subst NotReady (err-injective e) h

goes_on :
    {A : Type 0} {a : A} (other : Ending)
    → ◌≡◌ {A = Result Ending A} (ok a) (err other)
    → NotReady other
goes_on other e = absurd (ok-ne-err e)

chain :
    {A B : Type 0} (r : Result Ending A) (rest : A → Result Ending B)
    → ((ending : Ending) → r ≡ err ending → NotReady ending)
    → ((a : A) (ending : Ending) → rest a ≡ err ending → NotReady ending)
    → (ending : Ending) → (r >>= rest) ≡ err ending
    → NotReady ending
chain r rest first later ending h = elim (>>=-eq-err r rest h) [
  | inl e ↦ first ending e
  | inr (a, e, e') ↦ later a ending e'
]

module _ (lib : Library) where
  check_dependencies-NotReady :
      (cfg : Configuration) (store : RolesByRelease) (op : ReleaseOperation) (ending : Ending)
      → check_dependencies lib cfg store op ≡ err ending
      → NotReady ending
  unfolding check_dependencies
  check_dependencies-NotReady cfg store op ending h =
      elim (Bool-cases (missing_dependency cfg store op.dependencies == "")) [
        | inl e ↦ goes_on ending (rw (e, check_dependencies) at h)
        | inr e ↦ ends wait_dependencies-ne-ready ending (rw (e, check_dependencies) at h)
      ]

  check_conditions-NotReady :
      (idx : ℕ) (answers : List (Result ReconcileError (Bool × String))) (op : ReleaseOperation)
      (ending : Ending)
      → check_conditions lib idx answers op ≡ err ending
      → NotReady ending
  unfolding check_conditions
  check_conditions-NotReady idx [] op ending h = goes_on ending h
  check_conditions-NotReady idx (err e ∷ answers) op ending h = ends error-ne-ready ending h
  check_conditions-NotReady idx (ok (true, message) ∷ answers) op ending h =
      check_conditions-NotReady (suc idx) answers op ending h
  check_conditions-NotReady idx (ok (false, message) ∷ answers) op ending h =
      ends wait_conditions-ne-ready ending h

  spawn-NotReady :
      (release : Release) (answers : Answers) (op : ReleaseOperation) (ending : Ending)
      → spawn lib release answers op ≡ err ending
      → NotReady ending
  unfolding spawn
  spawn-NotReady release answers op ending h = elim (Bool-cases release.suspended) [
    | inl e ↦ goes_on ending (rw (e, spawn) at h)
    | inr e ↦ elim (Result-cases (handle_modules release.name.name answers.modules [])) [
      | inl (states, hs) ↦ goes_on ending (rw (e, hs, spawn) at h)
      | inr (failure, hs) ↦ ends error-ne-ready ending (rw (e, hs, spawn) at h)
    ]
  ]

  settle_states-NotReady :
      (release : Release) (op : ReleaseOperation) (states : Option HelmStates) (ending : Ending)
      → settle_states lib release op states ≡ err ending
      → NotReady ending
  unfolding settle_states
  settle_states-NotReady release op states ending h = elim (Bool-cases release.suspended) [
    | inl e ↦ ends suspended-ne-ready ending (rw (e, settle_states) at h)
    | inr e ↦ elim (Bool-cases (compute_ready_helm_releases lib.itoa (states_of lib states)).1) [
      | inl all ↦ goes_on ending (rw (e, all, settle_states) at h)
      | inr waits ↦ ends wait_helm_releases-ne-ready ending (rw (e, waits, settle_states) at h)
    ]
  ]

  handle_helm_releases-NotReady :
      (release : Release) (answers : Answers) (op : ReleaseOperation) (ending : Ending)
      → handle_helm_releases lib release answers op ≡ err ending
      → NotReady ending
  unfolding handle_helm_releases
  handle_helm_releases-NotReady release answers op =
      chain (spawn lib release answers op) (settle_states lib release op)
        (spawn-NotReady release answers op) (settle_states-NotReady release op)

  manage_outputs-NotReady :
      (release : Release) (answers : Answers) (op : ReleaseOperation) (ending : Ending)
      → manage_outputs lib release answers op ≡ err ending
      → NotReady ending
  unfolding manage_outputs
  manage_outputs-NotReady release answers op ending h =
      elim (Result-cases (handle_outputs lib.itoa release.name 0 answers.outputs no_outputs)) [
        | inr (failure, e) ↦ ends error-ne-ready ending (rw (e, manage_outputs) at h)
        | inl (outputs, e) ↦
            elim (Bool-cases (compute_ready_connection lib.itoa outputs.by_name).1) [
              | inl all ↦ goes_on ending (rw (e, all, manage_outputs) at h)
              | inr waits ↦ ends wait_outputs-ne-ready ending (rw (e, waits, manage_outputs) at h)
            ]
      ]

  delete_orphans-NotReady :
      (answers : Answers) (op : ReleaseOperation) (ending : Ending)
      → delete_orphans lib answers op ≡ err ending
      → NotReady ending
  unfolding delete_orphans
  delete_orphans-NotReady answers op ending h = elim (Result-cases answers.connections) [
    | inr (failure, e) ↦ ends error-ne-ready ending (rw (e, delete_orphans) at h)
    | inl (l₁, e) ↦ elim (Result-cases answers.cluster_connections) [
      | inr (failure, e') ↦ ends error-ne-ready ending (rw (e, e', delete_orphans) at h)
      | inl (l₂, e') ↦ goes_on ending (rw (e, e', delete_orphans) at h)
    ]
  ]

  module _ (cfg : Configuration) (store : RolesByRelease) (release : Release) (rendered : Rendered)
      (answers : Answers) (op : ReleaseOperation) where
    deploy-NotReady :
        (ending : Ending)
        → deploy lib cfg store release rendered answers op ≡ err ending
        → NotReady ending
    unfolding deploy
    deploy-NotReady =
        chain (check_dependencies lib cfg store (store_rendered lib release rendered op)) _
          (check_dependencies-NotReady cfg store _)
          (λ op₁.
            chain (check_conditions lib 0 answers.conditions op₁) _
              (check_conditions-NotReady 0 answers.conditions op₁)
              (λ op₂.
                chain (handle_helm_releases lib release answers op₂) _
                  (handle_helm_releases-NotReady release answers op₂)
                  (λ op₃.
                    chain (manage_outputs lib release answers op₃) _
                      (manage_outputs-NotReady release answers op₃)
                      (λ op₄. delete_orphans-NotReady answers op₄))))

    abbrev pub pass : Result Ending ReleaseOperation
    pass = deploy lib cfg store release rendered answers op

    ready_end :
        (r : Result Ending ReleaseOperation)
        → ((ending : Ending) → r ≡ err ending → NotReady ending)
        → (roles : List String)
        → ((phase_of (ending_of lib r) ≡ phase_ready)
            × ((operation_of (ending_of lib r)).roles ≡ roles))
          ↔ ((op' : ReleaseOperation) × (r ≡ ok op') × (op'.roles ≡ roles))
    unfolding ending_of
    ready_end (ok op') never roles = (
      λ (e, same). (op', refl, same),
      λ (op₁, e, same). (refl, ap (λ x. x.roles) (ok-injective e) ∙ same),
    )
    ready_end (err ending) never roles =
        (λ (e, same). absurd (never ending refl e), λ (op₁, e, same). absurd (err-ne-ok e))

    -- Whatever the answer to the update of the status, after the end of a pass the Release is
    -- registered exactly if the pass got to its end, the phase READY, and then with the roles that
    -- the pass computed. Other Releases stay as they were.
    pub deploy-registered :
        (full_name : NamespacedName → String) (m : Memory) (answer : Option String) (other : String)
        (roles : List String)
        → Holds
            (finish full_name release.name (ending_of lib pass) m answer).memory.role_store
            other
            roles
          ↔ (((other ≡ full_name release.name)
                × ((op' : ReleaseOperation) × (pass ≡ ok op') × (op'.roles ≡ roles)))
              ⊎ ((¬ (other ≡ full_name release.name)) × Holds m.role_store other roles))
    deploy-registered full_name m answer other roles =
        let at_end = ready_end pass deploy-NotReady roles in
        let (to, from) =
          finish-registered full_name release.name (ending_of lib pass) m answer other roles in
        (
          λ h. elim (to h) [
            | inl (same, ready, roles_same) ↦ inl (same, at_end.0 (ready, roles_same))
            | inr kept ↦ inr kept
          ],
          λ h. elim h [
            | inl (same, deployed) ↦
                let (ready, roles_same) = at_end.1 deployed in from (inl (same, ready, roles_same))
            | inr kept ↦ from (inr kept)
          ],
        )
