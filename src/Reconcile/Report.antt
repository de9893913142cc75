-- ===== src/Reconcile/Report.antt =====
-- How a pass ends: `reportError`, `updateStatus` and the failures of status updates of
-- internal/controller/release_controller.go. The events and the log are left out.
use kubocd.Common.{ℕ, String, ◌<>◌, Bool, not, ◌&&◌, Option, none, some}
use kubocd.Common.{List, [], ◌∷◌, ◌==◌, contains, string_eq, if◌then◌else◌}
use kubocd.Config.Spec.{NamespacedName}
use kubocd.Roles.{RolesByRelease, register_release, un_register_release}
use kubocd.Reconcile.Status.{ReconcileError, Status, ReleaseOperation, Ending, name_eq}
use kubocd.Reconcile.Status.{report, update, update_and_retry, phase_ready, phase_error}

-- What the reconciler keeps between passes.
pub record Memory : Type 0 where
  pub role_store : RolesByRelease
  pub status_failures : List NamespacedName

-- `ctrl.Result` with the error: a time to wait is in milliseconds.
pub data Outcome : Type 0 where
  done : Outcome
  requeue_after : ℕ → Outcome
  failed : String → Outcome

-- `statusFailures.fail`
unfoldable pub fail : NamespacedName → List NamespacedName → Bool × List NamespacedName
fail release releases = (contains releases release, release ∷ releases)

-- `statusFailures.clear`
unfoldable pub clear : NamespacedName → List NamespacedName → List NamespacedName
clear release [] = []
clear release (r ∷ releases) =
    let rest = clear release releases in if release == r then rest else r ∷ rest

-- The outcome, the memory, and the status that was written, if one was.
pub record Ended : Type 0 where
  pub outcome : Outcome
  pub memory : Memory
  pub written : Option Status

-- `reportError` on the outcome of `updateStatus`.
unfoldable pub report_outcome : ReconcileError → Outcome → Outcome
report_outcome e (failed e') = failed e.message
report_outcome e done = if e.fatal then done else failed e.message
report_outcome e (requeue_after t) = if e.fatal then requeue_after t else failed e.message

-- The returns that wait for a dependency, a condition or an input: five seconds, where the update
-- of the status asks for nothing itself.
unfoldable pub retry_outcome : Outcome → Outcome
retry_outcome (failed e) = failed e
retry_outcome (requeue_after t) = requeue_after t
retry_outcome done = requeue_after 5000

module _ (full_name : NamespacedName → String) (release : NamespacedName) where
  -- The call of `RegisterRelease` or `UnRegisterRelease`.
  unfoldable pub set_roles : ReleaseOperation → String → Memory → Memory
  set_roles op phase m = record m {
    role_store =
        if phase == phase_ready
        then register_release full_name release op.roles m.role_store
        else un_register_release full_name release m.role_store;
  }

  -- `answer` is the error of the update of the status, if it has one.
  unfoldable pub update_status : ReleaseOperation → String → String → Memory → Option String → Ended
  unfolding set_roles fail clear
  update_status op phase message m answer =
      let m' = set_roles op phase m in
      let again = fail release m'.status_failures in
      if op.status.phase == phase && op.status.message == message && not op.force_update
      then record { outcome = done; memory = m'; written = none }
      else elim answer [
        | none ↦ record {
          outcome = done;
          memory = record m' { status_failures = clear release m'.status_failures };
          written = some (record op.status { phase = phase; message = message });
        }
        | some e ↦ record {
          outcome =
              if again.0
              then failed ("could not update the Release status: " <> e)
              else requeue_after 200;
          memory = record m' { status_failures = again.1 };
          written = none;
        }
      ]

  unfoldable pub report_error : ReleaseOperation → ReconcileError → Memory → Option String → Ended
  unfolding report_outcome
  report_error op e m answer =
      let u = update_status op phase_error e.message m answer in
      record u { outcome = report_outcome e u.outcome }

  unfoldable pub finish : Ending → Memory → Option String → Ended
  unfolding report_error update_status retry_outcome
  finish (report op e) m answer = report_error op e m answer
  finish (update op phase message) m answer = update_status op phase message m answer
  finish (update_and_retry op phase message) m answer =
      let u = update_status op phase message m answer in
      record u { outcome = retry_outcome u.outcome }
