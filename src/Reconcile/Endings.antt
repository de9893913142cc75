-- ===== src/Reconcile/Endings.antt =====
-- What the reconciler promises of every end of a pass: the roles that it leaves registered, and
-- that nothing that has to be tried again is forgotten.
use kubocd.Common.{String, true, false, Option, none, some, ◌≡◌, ◌≢◌, ◌⊎◌, ◌↔◌}
use kubocd.Common.{List, string_eq, arith, ==→≡}
use kubocd.Config.Spec.{NamespacedName}
use kubocd.Roles.Laws.{Holds, register_release-Holds, un_register_release-Holds}
use kubocd.Reconcile.Status.{ReconcileError, ReleaseOperation, Ending, report, update}
use kubocd.Reconcile.Status.{update_and_retry, phase_ready, phase_error, name_eq}
use kubocd.Reconcile.Status.{phase_suspended, phase_wait_helm_releases}
use kubocd.Reconcile.Status.{phase_wait_output_connections}
use kubocd.Reconcile.Report.{Ended, Memory, Outcome, done, requeue_after, failed, set_roles}
use kubocd.Reconcile.Report.{update_status, report_error, report_outcome, retry_outcome, finish}

abbrev pub operation_of : Ending → ReleaseOperation
operation_of (report op e) = op
operation_of (update op phase message) = op
operation_of (update_and_retry op phase message) = op

abbrev pub phase_of : Ending → String
phase_of (report op e) = phase_error
phase_of (update op phase message) = phase
phase_of (update_and_retry op phase message) = phase

abbrev pub message_of : Ending → String
message_of (report op e) = e.message
message_of (update op phase message) = message
message_of (update_and_retry op phase message) = message

-- The phases whose end the cluster or the user notifies.
abbrev pub IsNotified : String → Type 0
IsNotified phase =
    (phase ≡ phase_ready)
    ⊎ (phase ≡ phase_suspended)
    ⊎ (phase ≡ phase_wait_helm_releases)
    ⊎ (phase ≡ phase_wait_output_connections)

-- An end that only waits for a notification, or for the user.
abbrev pub WaitsForOthers : Ending → Type 0
WaitsForOthers (report op e) = e.fatal ≡ true
WaitsForOthers (update op phase message) = IsNotified phase
WaitsForOthers (update_and_retry op phase message) = ⊥

-- Only a phase of which a notification comes is set without a time to come back.
abbrev pub IsAwaited : Ending → Type 0
IsAwaited (report op e) = Unit {0}
IsAwaited (update op phase message) = IsNotified phase
IsAwaited (update_and_retry op phase message) = Unit {0}

report_outcome-done :
    (e : ReconcileError) (o : Outcome) → report_outcome e o ≡ done → (e.fatal ≡ true) × (o ≡ done)
unfolding report_outcome
report_outcome-done e done h = ground (arith, h)
report_outcome-done e (requeue_after t) h = ground (arith, h)
report_outcome-done e (failed e') h = ground (arith, h)

retry_outcome-ne-done : (o : Outcome) → retry_outcome o ≢ done
unfolding retry_outcome
retry_outcome-ne-done done h = ground (arith, h)
retry_outcome-ne-done (requeue_after t) h = ground (arith, h)
retry_outcome-ne-done (failed e) h = ground (arith, h)

-- The cluster has this phase and message: they were written with the rest of the status, or they
-- stand there already and no update is forced.
abbrev pub IsStored : ReleaseOperation → String → String → Option String → Ended → Type 0
IsStored op phase message answer ended =
    ((answer ≡ none)
      × (ended.written ≡ some (record op.status { phase = phase; message = message })))
    ⊎ ((ended.written ≡ none)
        × (op.status.phase ≡ phase)
        × (op.status.message ≡ message)
        × (op.force_update ≡ false))

module _ (full_name : NamespacedName → String) (release : NamespacedName) where
  update_status-role_store :
      (op : ReleaseOperation) (phase message : String) (m : Memory) (answer : Option String)
      → (update_status full_name release op phase message m answer).memory.role_store
        ≡ (set_roles full_name release op phase m).role_store
  unfolding update_status
  update_status-role_store op phase message m none = ground arith
  update_status-role_store op phase message m (some e) = ground arith

  set_roles-Holds :
      (op : ReleaseOperation) (phase : String) (m : Memory) (other : String) (roles : List String)
      → Holds (set_roles full_name release op phase m).role_store other roles ↔ (
          ((other ≡ full_name release) × (phase ≡ phase_ready) × (op.roles ≡ roles))
          ⊎ ((¬ (other ≡ full_name release)) × Holds m.role_store other roles))
  unfolding set_roles
  set_roles-Holds op phase m other roles = ground (
    arith,
    register_release-Holds full_name release op.roles m.role_store other roles,
    un_register_release-Holds full_name release m.role_store other roles,
  )

  finish-role_store :
      (ending : Ending) (m : Memory) (answer : Option String)
      → (finish full_name release ending m answer).memory.role_store
        ≡ (set_roles full_name release (operation_of ending) (phase_of ending) m).role_store
  unfolding finish report_error
  finish-role_store (report op e) m answer =
      update_status-role_store op phase_error e.message m answer
  finish-role_store (update op phase message) m answer =
      update_status-role_store op phase message m answer
  finish-role_store (update_and_retry op phase message) m answer =
      update_status-role_store op phase message m answer

  -- Whatever the end of a pass and the answer to the update of the status, the Release is then
  -- registered exactly if the phase is READY, with the roles of the pass, and no other Release is
  -- registered or unregistered.
  pub finish-registered :
      (ending : Ending) (m : Memory) (answer : Option String) (other : String) (roles : List String)
      → Holds (finish full_name release ending m answer).memory.role_store other roles ↔ (
          ((other ≡ full_name release)
            × (phase_of ending ≡ phase_ready)
            × ((operation_of ending).roles ≡ roles))
          ⊎ ((¬ (other ≡ full_name release)) × Holds m.role_store other roles))
  finish-registered ending m answer other roles =
      rw (finish-role_store ending m answer)
        (set_roles-Holds (operation_of ending) (phase_of ending) m other roles)

  update_status-done :
      (op : ReleaseOperation) (phase message : String) (m : Memory) (answer : Option String)
      → (update_status full_name release op phase message m answer).outcome ≡ done
      → IsStored op phase message answer (update_status full_name release op phase message m answer)
  unfolding update_status
  update_status-done op phase message m none h =
      ground (arith, ==→≡ op.status.phase phase, ==→≡ op.status.message message)
  update_status-done op phase message m (some e) h =
      ground (arith, h, ==→≡ op.status.phase phase, ==→≡ op.status.message message)

  -- A pass that ends without an error and without a time to come back waits for others, and its status
  -- is stored.
  pub finish-done :
      (ending : Ending) (m : Memory) (answer : Option String)
      → IsAwaited ending
      → (finish full_name release ending m answer).outcome ≡ done
      → WaitsForOthers ending
        × IsStored
            (operation_of ending)
            (phase_of ending)
            (message_of ending)
            answer
            (finish full_name release ending m answer)
  unfolding finish report_error
  finish-done (report op e) m answer awaited h =
      let (fatal, quiet) = report_outcome-done e _ h in
      (fatal, update_status-done op phase_error e.message m answer quiet)
  finish-done (update op phase message) m answer awaited h =
      (awaited, update_status-done op phase message m answer h)
  finish-done (update_and_retry op phase message) m answer awaited h =
      absurd (retry_outcome-ne-done _ h)
