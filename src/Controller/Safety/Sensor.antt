-- ===== src/Controller/Safety/Sensor.antt =====
-- An observe-only Artifact is a sensor: nothing is generated and nothing is written to the store.
use artifact_controller.Prelude.{String, true, ◌≡◌, arith, All}
use artifact_controller.Prelude.Int.{ℤ}
use artifact_controller.Prelude.Result.{Result, ok, err}
use artifact_controller.Toolkit.{Toolkit, Input}
use artifact_controller.Calls.{Call}
use artifact_controller.Api.Artifact.{Artifact, observe_only}
use artifact_controller.Api.ArtifactClass.{ArtifactClass}
use artifact_controller.Store.{Observation, Driver}
use artifact_controller.Controller.Session.{Cluster, Session, call}
use artifact_controller.Controller.Run.{delete_abandoned_run}
use artifact_controller.Controller.Existing.{
  reconcile_existing, accept_existing, key_conflict, become_ready, rebaseline, record_drift,
}
use artifact_controller.Controller.Missing.{reconcile_missing_observed}
use artifact_controller.Controller.Removal.{reconcile_delete, release}
use artifact_controller.Controller.Reconcile.{
  note_generation, suspended, honor_retry, cancel_for_observe, expire_ttl, dispatch, observe_store,
  with_driver, with_key, with_class, reconcile_active, reconcile,
}
use artifact_controller.Controller.Request.{Memory, opened, handle, finish, reconcile_request}

-- A call that neither creates a run nor takes an object out of the store.
abbrev pub WritesNothing : Call → Type 0
WritesNothing (Call.create_run r) = ⊥
WritesNothing (Call.delete_object key) = ⊥
WritesNothing _ = Unit

module _ (k : Toolkit) (c : Cluster) where
  -- The Artifact of the session is a sensor, and nothing has been written yet.
  pub record Senses (s : Session k) : Type 0 where
    pub sensor : observe_only s.obj ≡ true
    pub quiet : All WritesNothing s.trace

  reconcile_delete-WritesNothing :
      (s : Session k) → Senses s → All WritesNothing (reconcile_delete k c s).0.trace
  unfolding reconcile_delete release
  reconcile_delete-WritesNothing s h = ground arith

  accept_existing-WritesNothing :
      (class : ArtifactClass) (obs : Observation) (in_ : Input) (now : ℤ) (s : Session k)
      → Senses s
      → All WritesNothing (accept_existing k c class obs in_ now s).0.trace
  unfolding accept_existing become_ready rebaseline record_drift
  accept_existing-WritesNothing class obs in_ now s h = ground arith

  dispatch-WritesNothing :
      (class : ArtifactClass) (in_ : Input) (now : ℤ) (obs : Observation) (s : Session k)
      → Senses s
      → All WritesNothing (dispatch k c class in_ now obs s).0.trace
  unfolding dispatch reconcile_existing key_conflict reconcile_missing_observed
  dispatch-WritesNothing class in_ now obs s h =
      ground (arith, accept_existing-WritesNothing class obs in_ now s)

  observe_store-WritesNothing :
      (class : ArtifactClass) (driver : Driver) (in_ : Input) (now : ℤ) (s : Session k)
      → Senses s
      → All WritesNothing (observe_store k c class driver in_ now s).0.trace
  unfolding observe_store
  observe_store-WritesNothing class driver in_ now s h = grind (
    arith,
    λ (obs : Observation). dispatch-WritesNothing class in_ now obs (call (Call.observe in_.key) s),
  )

  with_driver-WritesNothing :
      (class : ArtifactClass) (d : Result Driver) (in_ : Input) (now age : ℤ) (s : Session k)
      → Senses s
      → All WritesNothing (with_driver k c class d in_ now age s).0.trace
  unfolding with_driver
  with_driver-WritesNothing class (err e) in_ now age s h = ground arith
  with_driver-WritesNothing class (ok driver) in_ now age s h =
      ground (arith, observe_store-WritesNothing class driver in_ now s)

  with_key-WritesNothing :
      (class : ArtifactClass) (in_ : Input) (now : ℤ) (s : Session k)
      → Senses s
      → All WritesNothing (with_key k c class in_ now s).0.trace
  unfolding with_key expire_ttl
  with_key-WritesNothing class in_ now s h = grind (arith, with_driver-WritesNothing)

  with_class-WritesNothing :
      (class : Result ArtifactClass) (now : ℤ) (s : Session k)
      → Senses s
      → All WritesNothing (with_class k c class now s).0.trace
  unfolding with_class
  with_class-WritesNothing (err e) now s h = ground arith
  with_class-WritesNothing (ok class) now s h = grind (arith, with_key-WritesNothing)

  reconcile_active-WritesNothing :
      (now : ℤ) (s : Session k) → Senses s → All WritesNothing (reconcile_active k c now s).0.trace
  unfolding reconcile_active cancel_for_observe honor_retry delete_abandoned_run
  reconcile_active-WritesNothing now s h = grind (arith, with_class-WritesNothing)

  reconcile-WritesNothing : (s : Session k) → Senses s → All WritesNothing (reconcile k c s).0.trace
  unfolding reconcile note_generation suspended
  reconcile-WritesNothing s h = grind (arith, reconcile_active-WritesNothing)

  handle-WritesNothing : (s : Session k) → Senses s → All WritesNothing (handle k c s).0.trace
  unfolding handle
  handle-WritesNothing s h =
      ground (arith, reconcile-WritesNothing s h, reconcile_delete-WritesNothing s h)

  -- Whatever the class, the store and the cluster answer, a request for an observe-only Artifact
  -- creates no generator run and deletes no store object, also when the Artifact is being deleted.
  pub reconcile_request-WritesNothing :
      (namespace name : String) (m : Memory k) (obj : Artifact)
      → c.get_artifact m.trace namespace name ≡ ok obj
      → observe_only obj ≡ true
      → All WritesNothing m.trace
      → All WritesNothing (reconcile_request k c namespace name m).0.trace
  unfolding reconcile_request finish
  reconcile_request-WritesNothing namespace name m obj e o q =
      ground (arith, handle-WritesNothing (opened k m obj (Call.get_artifact namespace name)))
