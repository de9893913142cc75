-- ===== src/Reconcile.antt =====
-- One pass of the reconciler of a Release: internal/controller/release_controller.go.
pub mod Status
pub mod Report
pub mod Helm
pub mod Outputs
pub mod Pass
pub mod Stages
pub mod Marks
pub mod Deployed
pub mod Endings
pub mod Retried
pub mod Registered
pub mod Deletion
pub mod Resolution
pub mod Suspension
pub mod Resolved
pub mod Context
pub mod Computed
