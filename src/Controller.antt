-- ===== src/Controller.antt =====
-- internal/controller/artifact_controller.go: the reconciler.
pub mod Session
pub mod Timing
pub mod Run
pub mod Failure
pub mod Evaluate
pub mod Create
pub mod Existing
pub mod Missing
pub mod Removal
pub mod Reconcile
pub mod Request
pub mod Setup
pub mod Readiness
pub mod Budget
pub mod Frame
pub mod Wakeup
pub mod Safety
