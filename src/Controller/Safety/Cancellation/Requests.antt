-- ===== src/Controller/Safety/Cancellation/Requests.antt =====
-- The request that meets an observe-only Artifact with a run in flight.
use artifact_controller.Prelude.{String, true, false, ◌≡◌, ◌≢◌, ◌⊎◌, refl, arith, none, some, ◌∷◌}
use artifact_controller.Prelude.Int.{ℤ}
use artifact_controller.Prelude.Result.{Result, ok, err}
use artifact_controller.Toolkit.{Toolkit, Input}
use artifact_controller.Calls.{Call, Trace}
use artifact_controller.Api.Artifact.{
  Artifact, GeneratorReference, observe_only, artifact_finalizer,
}
use artifact_controller.Api.ArtifactClass.{ArtifactClass}
use artifact_controller.Store.{Observation, Driver}
use artifact_controller.Controller.Session.{Cluster, Session, Outcome, call}
use artifact_controller.Controller.Run.{delete_abandoned_run}
use artifact_controller.Controller.Existing.{
  reconcile_existing, accept_existing, key_conflict, become_ready, verified_status, rebaseline,
  record_drift,
}
use artifact_controller.Controller.Missing.{reconcile_missing_observed}
use artifact_controller.Controller.Reconcile.{
  dispatch, observe_store, with_driver, with_key, with_class, reconcile_active, reconcile,
  note_generation, honor_retry, cancel_for_observe, expire_ttl,
}
use artifact_controller.Controller.Request.{Memory, opened, handle, finish, reconcile_request}
use artifact_controller.Controller.Safety.Cancellation.{Confirms, cancel_for_observe-Cancelled}

module _ (k : Toolkit) (c : Cluster) where
  -- An observe-only Artifact without a run.
  abbrev IsIdle : Session k → Type 0
  IsIdle s = (observe_only s.obj ≡ true) × (s.obj.status.generator_ref ≡ none)

  dispatch-idle :
      (class : ArtifactClass) (in_ : Input) (now : ℤ) (obs : Observation) (s : Session k)
      → IsIdle s
      → (dispatch k c class in_ now obs s).0.obj.status.generator_ref ≡ none
  unfolding dispatch reconcile_existing accept_existing key_conflict become_ready verified_status
      rebaseline record_drift reconcile_missing_observed
  dispatch-idle class in_ now obs s h = ground arith

  observe_store-idle :
      (class : ArtifactClass) (driver : Driver) (in_ : Input) (now : ℤ) (s : Session k)
      → IsIdle s
      → (observe_store k c class driver in_ now s).0.obj.status.generator_ref ≡ none
  unfolding observe_store
  observe_store-idle class driver in_ now s h = grind (
    arith,
    λ (obs : Observation). dispatch-idle class in_ now obs (call (Call.observe in_.key) s) h,
  )

  with_driver-idle :
      (class : ArtifactClass) (d : Result Driver) (in_ : Input) (now age : ℤ) (s : Session k)
      → IsIdle s
      → (with_driver k c class d in_ now age s).0.obj.status.generator_ref ≡ none
  unfolding with_driver
  with_driver-idle class (err e) in_ now age s h = ground arith
  with_driver-idle class (ok driver) in_ now age s h =
      ground (arith, observe_store-idle class driver in_ now s h)

  with_key-idle :
      (class : ArtifactClass) (in_ : Input) (now : ℤ) (s : Session k)
      → IsIdle s
      → (with_key k c class in_ now s).0.obj.status.generator_ref ≡ none
  unfolding with_key expire_ttl
  with_key-idle class in_ now s h = grind (arith, with_driver-idle)

  with_class-idle :
      (class : Result ArtifactClass) (now : ℤ) (s : Session k)
      → IsIdle s
      → (with_class k c class now s).0.obj.status.generator_ref ≡ none
  unfolding with_class
  with_class-idle (err e) now s h = ground arith
  with_class-idle (ok class) now s h = grind (arith, with_key-idle)

  -- The run is confirmed to be gone and forgotten, or the reference stays and there is an error.
  abbrev Ended : GeneratorReference → Session k → Session k × Outcome → Type 0
  Ended ref s r =
      ((r.0.obj.status.generator_ref ≡ none) × Confirms (c.delete_run s.trace ref))
      ⊎ ((r.0.obj.status.generator_ref ≡ some ref) × (r.1.error ≢ none))

  cancel_for_observe-policy :
      (s : Session k) → observe_only (cancel_for_observe k c s).0.obj ≡ observe_only s.obj
  unfolding cancel_for_observe delete_abandoned_run
  cancel_for_observe-policy s = ground arith

  honor_retry-kept :
      (s : Session k)
      → ((honor_retry k c s).obj.status.generator_ref ≡ s.obj.status.generator_ref)
        × (observe_only (honor_retry k c s).obj ≡ observe_only s.obj)
  unfolding honor_retry
  honor_retry-kept s = ground arith

  reconcile_active-Ended :
      (now : ℤ) (ref : GeneratorReference) (s : Session k)
      → s.obj.status.generator_ref ≡ some ref
      → observe_only s.obj ≡ true
      → Ended ref (honor_retry k c s) (reconcile_active k c now s)
  unfolding reconcile_active
  reconcile_active-Ended now ref s e h =
      let s1 = honor_retry k c s in
      let (p, q) = honor_retry-kept s in
      grind (
        arith,
        cancel_for_observe-Cancelled k c ref s1 (ground (arith, p, e)) (ground (arith, q, h)),
        cancel_for_observe-policy s1,
        q,
        with_class-idle,
      )

  note_generation-kept :
      (s : Session k)
      → ((note_generation k c s).obj.status.generator_ref ≡ s.obj.status.generator_ref)
        × (observe_only (note_generation k c s).obj ≡ observe_only s.obj)
  unfolding note_generation
  note_generation-kept s = (refl, refl)

  -- The session in which the API server is asked to delete the run.
  abbrev pub asking : Session k → Session k
  asking s = honor_retry k c (note_generation k c s)

  handle-Ended :
      (ref : GeneratorReference) (s : Session k)
      → s.obj.deletion_timestamp ≡ none
      → k.contains_finalizer s.obj.finalizers artifact_finalizer ≡ true
      → s.obj.spec.suspend ≡ false
      → s.obj.status.generator_ref ≡ some ref
      → observe_only s.obj ≡ true
      → Ended ref (asking s) (handle k c s)
  unfolding handle reconcile
  handle-Ended ref s a f l e h =
      let s1 = note_generation k c s in
      let (p, q) = note_generation-kept s in
      ground (
        arith,
        a,
        f,
        l,
        reconcile_active-Ended (c.now s.trace) ref s1 (ground (arith, p, e)) (ground (arith, q, h)),
      )

  -- The end of a request: the Artifact that the patch writes, with the run forgotten after the API
  -- server confirmed its deletion, or with the reference kept and an error, which brings a retry.
  pub record Settles (ref : GeneratorReference) (s : Session k) (r : Memory k × Outcome)
      : Type 0 where
    pub written : Artifact
    pub before : Trace
    pub patched : r.0.trace ≡ Call.patch written ∷ before
    pub run :
        ((written.status.generator_ref ≡ none) × Confirms (c.delete_run (asking s).trace ref))
        ⊎ ((written.status.generator_ref ≡ some ref) × (r.1.error ≢ none))

  -- A request for an Artifact with a run in flight whose policy is Observe, that has the finalizer
  -- and is neither suspended nor being deleted, writes the Artifact without the reference to the run
  -- only where the API server confirmed the deletion of the run. Otherwise it writes the reference
  -- as it was and ends with an error, so that it is tried again.
  pub reconcile_request-Settles :
      (namespace name : String) (m : Memory k) (obj : Artifact) (ref : GeneratorReference)
      → c.get_artifact m.trace namespace name ≡ ok obj
      → obj.deletion_timestamp ≡ none
      → k.contains_finalizer obj.finalizers artifact_finalizer ≡ true
      → obj.spec.suspend ≡ false
      → obj.status.generator_ref ≡ some ref
      → observe_only obj ≡ true
      → Settles ref
          (opened k m obj (Call.get_artifact namespace name))
          (reconcile_request k c namespace name m)
  unfolding reconcile_request finish
  reconcile_request-Settles namespace name m obj ref g a f l e h =
      let s = opened k m obj (Call.get_artifact namespace name) in
      record {
        written = (handle k c s).0.obj;
        before = (handle k c s).0.trace;
        patched = ground (arith, g);
        run = ground (arith, g, handle-Ended ref s a f l e h);
      }
