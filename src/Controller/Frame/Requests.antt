-- ===== src/Controller/Frame/Requests.antt =====
-- A reconciliation writes the status only, and the finalizer guards what it does outside.
use artifact_controller.Prelude.{String, arith}
use artifact_controller.Prelude.Int.{ℤ}
use artifact_controller.Prelude.Result.{Result, ok, err}
use artifact_controller.Toolkit.{Toolkit, Input}
use artifact_controller.Api.ArtifactClass.{ArtifactClass}
use artifact_controller.Store.{Observation, Driver}
use artifact_controller.Controller.Session.{Cluster, Session}
use artifact_controller.Controller.Run.{delete_abandoned_run}
use artifact_controller.Controller.Existing.{
  reconcile_existing, accept_existing, key_conflict, become_ready, rebaseline, record_drift,
}
use artifact_controller.Controller.Removal.{
  reconcile_expired, expire_observed, delete_expired, park_expired,
}
use artifact_controller.Controller.Reconcile.{
  dispatch, observe_store, with_driver, with_key, with_class, reconcile_active, reconcile,
  note_generation, suspended, honor_retry, cancel_for_observe, expire_ttl,
}
use artifact_controller.Controller.Frame.Attempts.{
  SameButStatus, reconcile_missing-frame, missing_observed-frame,
}

module _ {k : Toolkit} (c : Cluster) where
  accept_existing-frame :
      (class : ArtifactClass) (obs : Observation) (in_ : Input) (now : ℤ) (s : Session k)
      → SameButStatus s.obj (accept_existing k c class obs in_ now s).0.obj
  unfolding accept_existing become_ready rebaseline record_drift
  accept_existing-frame class obs in_ now s = grind (arith, reconcile_missing-frame)

  dispatch-frame :
      (class : ArtifactClass) (in_ : Input) (now : ℤ) (obs : Observation) (s : Session k)
      → SameButStatus s.obj (dispatch k c class in_ now obs s).0.obj
  unfolding dispatch reconcile_existing key_conflict
  dispatch-frame class in_ now obs s = grind (
    arith,
    accept_existing-frame class obs in_ now s,
    reconcile_missing-frame c class in_ now s,
    missing_observed-frame c in_ s,
  )

  observe_store-frame :
      (class : ArtifactClass) (driver : Driver) (in_ : Input) (now : ℤ) (s : Session k)
      → SameButStatus s.obj (observe_store k c class driver in_ now s).0.obj
  unfolding observe_store
  observe_store-frame class driver in_ now s = grind (arith, dispatch-frame)

  reconcile_expired-frame :
      (class : ArtifactClass) (driver : Driver) (key h : String) (d now : ℤ) (s : Session k)
      → SameButStatus s.obj (reconcile_expired k c class driver key h d now s).0.obj
  unfolding reconcile_expired expire_observed delete_expired park_expired
  reconcile_expired-frame class driver key h d now s = ground arith

  with_driver-frame :
      (class : ArtifactClass) (r : Result Driver) (in_ : Input) (now age : ℤ) (s : Session k)
      → SameButStatus s.obj (with_driver k c class r in_ now age s).0.obj
  unfolding with_driver
  with_driver-frame class (ok driver) in_ now age s =
      grind (arith, reconcile_expired-frame, observe_store-frame)
  with_driver-frame class (err e) in_ now age s = ground arith

  with_key-frame :
      (class : ArtifactClass) (in_ : Input) (now : ℤ) (s : Session k)
      → SameButStatus s.obj (with_key k c class in_ now s).0.obj
  unfolding with_key expire_ttl
  with_key-frame class in_ now s = grind (arith, with_driver-frame)

  with_class-frame :
      (r : Result ArtifactClass) (now : ℤ) (s : Session k)
      → SameButStatus s.obj (with_class k c r now s).0.obj
  unfolding with_class
  with_class-frame (ok class) now s = grind (arith, with_key-frame)
  with_class-frame (err e) now s = ground arith

  cancel_for_observe-frame : (s : Session k) → SameButStatus s.obj (cancel_for_observe k c s).0.obj
  unfolding cancel_for_observe delete_abandoned_run
  cancel_for_observe-frame s = ground arith

  honor_retry-frame : (s : Session k) → SameButStatus s.obj (honor_retry k c s).obj
  unfolding honor_retry
  honor_retry-frame s = ground arith

  reconcile_active-frame :
      (now : ℤ) (s : Session k) → SameButStatus s.obj (reconcile_active k c now s).0.obj
  unfolding reconcile_active
  reconcile_active-frame now s =
      grind (arith, honor_retry-frame s, cancel_for_observe-frame, with_class-frame)

  pub reconcile-frame : (s : Session k) → SameButStatus s.obj (reconcile k c s).0.obj
  unfolding reconcile note_generation suspended
  reconcile-frame s = grind (arith, reconcile_active-frame)
