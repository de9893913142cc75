-- ===== src/Reconcile/Retried.antt =====
-- A pass of internal/controller/release_controller.go that is not tried again.
use kubocd.Common.{ℕ, suc, String, Bool, true, false, Option, ◌≡◌, refl, inl, inr}
use kubocd.Common.{List, [], ◌∷◌, Result, ok, err, ◌>>=◌, ◌==◌, string_eq, Bool-cases, Result-cases}
use kubocd.Config.Spec.{NamespacedName, Configuration}
use kubocd.Roles.{RolesByRelease, missing_dependency}
use kubocd.Reconcile.Status.{ReconcileError, ReleaseOperation, Ending}
use kubocd.Reconcile.Report.{Memory, finish, done}
use kubocd.Reconcile.Helm.{HelmStates, handle_modules, compute_ready_helm_releases}
use kubocd.Reconcile.Outputs.{no_outputs, handle_outputs, compute_ready_connection}
use kubocd.Reconcile.Pass.{
  Library, Release, Rendered, Answers, deploy, ending_of, store_rendered, check_dependencies,
  check_conditions, spawn, settle_states, states_of, handle_helm_releases, manage_outputs,
  delete_orphans,
}
use kubocd.Reconcile.Endings.{
  IsAwaited, WaitsForOthers, IsStored, operation_of, phase_of, message_of, finish-done,
}

-- Where a stage ends the pass, the end is awaited.
abbrev EndsAwaited {ℓ} : {A : Type ℓ} → Result Ending A → Type 0
EndsAwaited (ok a) = Unit {0}
EndsAwaited (err ending) = IsAwaited ending

EndsAwaited->>= {ℓ κ} :
    {A : Type ℓ} {B : Type κ} (r : Result Ending A) (f : A → Result Ending B)
    → EndsAwaited r
    → ((a : A) → EndsAwaited (f a))
    → EndsAwaited (r >>= f)
EndsAwaited->>= (ok a) f h hf = hf a
EndsAwaited->>= (err ending) f h hf = h

module _ (lib : Library) where
  check_dependencies-EndsAwaited :
      (cfg : Configuration) (store : RolesByRelease) (op : ReleaseOperation)
      → EndsAwaited (check_dependencies lib cfg store op)
  unfolding check_dependencies
  check_dependencies-EndsAwaited cfg store op =
      elim (Bool-cases (missing_dependency cfg store op.dependencies == "")) [
        | inl e ↦ rw e tt
        | inr e ↦ rw e tt
      ]

  check_conditions-EndsAwaited :
      (idx : ℕ) (answers : List (Result ReconcileError (Bool × String))) (op : ReleaseOperation)
      → EndsAwaited (check_conditions lib idx answers op)
  unfolding check_conditions
  check_conditions-EndsAwaited idx [] op = tt
  check_conditions-EndsAwaited idx (err e ∷ answers) op = tt
  check_conditions-EndsAwaited idx (ok (true, message) ∷ answers) op =
      check_conditions-EndsAwaited (suc idx) answers op
  check_conditions-EndsAwaited idx (ok (false, message) ∷ answers) op = tt

  spawn-EndsAwaited :
      (release : Release) (answers : Answers) (op : ReleaseOperation)
      → EndsAwaited (spawn lib release answers op)
  unfolding spawn
  spawn-EndsAwaited release answers op = elim (Bool-cases release.suspended) [
    | inl e ↦ rw e tt
    | inr e ↦ elim (Result-cases (handle_modules release.name.name answers.modules [])) [
      | inl (states, h) ↦ rw (e, h) tt
      | inr (error, h) ↦ rw (e, h) tt
    ]
  ]

  settle_states-EndsAwaited :
      (release : Release) (op : ReleaseOperation) (states : Option HelmStates)
      → EndsAwaited (settle_states lib release op states)
  unfolding settle_states
  settle_states-EndsAwaited release op states = elim (Bool-cases release.suspended) [
    | inl e ↦ rw e (inr (inl refl))
    | inr e ↦ elim (Bool-cases (compute_ready_helm_releases lib.itoa (states_of lib states)).1) [
      | inl ready ↦ rw (e, ready) tt
      | inr waits ↦ rw (e, waits) (inr (inr (inl refl)))
    ]
  ]

  manage_outputs-EndsAwaited :
      (release : Release) (answers : Answers) (op : ReleaseOperation)
      → EndsAwaited (manage_outputs lib release answers op)
  unfolding manage_outputs
  manage_outputs-EndsAwaited release answers op =
      elim (Result-cases (handle_outputs lib.itoa release.name 0 answers.outputs no_outputs)) [
        | inr (error, h) ↦ rw (h, manage_outputs) tt
        | inl (outputs, h) ↦
            elim (Bool-cases (compute_ready_connection lib.itoa outputs.by_name).1) [
              | inl ready ↦ rw (h, ready, manage_outputs) tt
              | inr waits ↦ rw (h, waits, manage_outputs) (inr (inr (inr refl)))
            ]
      ]

  delete_orphans-EndsAwaited :
      (answers : Answers) (op : ReleaseOperation) → EndsAwaited (delete_orphans lib answers op)
  unfolding delete_orphans
  delete_orphans-EndsAwaited answers op = elim (Result-cases answers.connections) [
    | inr (e, h) ↦ rw h tt
    | inl (l₁, h) ↦ elim (Result-cases answers.cluster_connections) [
      | inr (e, h₂) ↦ rw (h, h₂) tt
      | inl (l₂, h₂) ↦ rw (h, h₂) tt
    ]
  ]

  deploy-EndsAwaited :
      (cfg : Configuration) (store : RolesByRelease) (release : Release) (rendered : Rendered)
      (answers : Answers) (op : ReleaseOperation)
      → EndsAwaited (deploy lib cfg store release rendered answers op)
  unfolding deploy handle_helm_releases
  deploy-EndsAwaited cfg store release rendered answers op =
      EndsAwaited->>= _ _
        (check_dependencies-EndsAwaited cfg store (store_rendered lib release rendered op))
        (λ op₁. EndsAwaited->>= _ _ (check_conditions-EndsAwaited 0 answers.conditions op₁) (λ op₂.
          EndsAwaited->>= _ _
            (EndsAwaited->>= _ _ (spawn-EndsAwaited release answers op₂)
              (settle_states-EndsAwaited release op₂))
            (λ op₃.
              EndsAwaited->>= _ _ (manage_outputs-EndsAwaited release answers op₃)
                (delete_orphans-EndsAwaited answers))))

  ending_of-IsAwaited :
      (r : Result Ending ReleaseOperation) → EndsAwaited r → IsAwaited (ending_of lib r)
  unfolding ending_of
  ending_of-IsAwaited (ok op) h = inl refl
  ending_of-IsAwaited (err ending) h = h

  -- Where a pass, from the rendered values on, ends without an error and without a time to come
  -- back, it waits for others: for the user, after a fatal error, or for the cluster or the user
  -- in the phases READY, SUSPENDED, WAIT_HREL and WAIT_OCNX. And its phase, its message and the
  -- rest of its status are stored: the update of the status succeeded and wrote them, or nothing
  -- was written since the phase and the message are those of before and no changed field forces
  -- an update. So a wait for a dependency or a condition, an error that is not fatal, and a
  -- failed update are tried again.
  pub deploy-retried :
      (cfg : Configuration) (store : RolesByRelease) (release : Release) (rendered : Rendered)
      (answers : Answers) (op : ReleaseOperation) (full_name : NamespacedName → String) (m : Memory)
      (answer : Option String)
      → (finish full_name release.name
          (ending_of lib (deploy lib cfg store release rendered answers op))
          m
          answer).outcome
        ≡ done
      → let ending = ending_of lib (deploy lib cfg store release rendered answers op) in
        WaitsForOthers ending
        × IsStored
            (operation_of ending)
            (phase_of ending)
            (message_of ending)
            answer
            (finish full_name release.name ending m answer)
  deploy-retried cfg store release rendered answers op full_name m answer h =
      finish-done full_name release.name _ m answer
        (ending_of-IsAwaited _ (deploy-EndsAwaited cfg store release rendered answers op)) h
