-- ===== src/Controller/Safety/Cancellation/Generators.antt =====
-- The run that is left over where its class defines a generator no more.
use artifact_controller.Prelude.{false, ◌≡◌, ◌≢◌, ◌⊎◌, arith, none, some}
use artifact_controller.Prelude.Int.{ℤ}
use artifact_controller.Toolkit.{Toolkit, ConditionLaws, Input}
use artifact_controller.Calls.{Trace}
use artifact_controller.Api.Conditions.{State}
use artifact_controller.Api.Artifact.{GeneratorReference, observe_only}
use artifact_controller.Api.ArtifactClass.{ArtifactClass}
use artifact_controller.Store.{Observation}
use artifact_controller.Controller.Session.{Cluster, Session, Outcome}
use artifact_controller.Controller.Run.{delete_abandoned_run}
use artifact_controller.Controller.Missing.{reconcile_missing, note_absence, without_generator}
use artifact_controller.Controller.Reconcile.{dispatch}
use artifact_controller.Controller.Budget.Ledger.{created_runs}
use artifact_controller.Controller.Readiness.Conditions.{ready-mark_false}
use artifact_controller.Controller.Readiness.Soundness.{is_ready}
use artifact_controller.Controller.Safety.Cancellation.{Confirms}

module _ {k : Toolkit} (laws : ConditionLaws k) (c : Cluster) where
  -- The run is confirmed, after the calls `asked`, to be gone and forgotten, and the Artifact is Degraded and not Ready; or
  -- the reference stays and there is an error. No run is created.
  pub record Abandons (asked : Trace) (ref : GeneratorReference) (s : Session k)
      (r : Session k × Outcome) : Type 0 where
    pub run :
        ((r.0.obj.status.generator_ref ≡ none)
          × (r.1.error ≡ none)
          × Confirms (c.delete_run asked ref)
          × (r.0.obj.status.state ≡ State.degraded)
          × (is_ready r.0 ≡ false))
        ⊎ ((r.0.obj.status.generator_ref ≡ some ref) × (r.1.error ≢ none))
    pub creates : created_runs c r.0.trace ≡ created_runs c s.trace

  without_generator-Abandons :
      (class : ArtifactClass) (in_ : Input) (ref : GeneratorReference) (s : Session k)
      → s.obj.status.generator_ref ≡ some ref
      → Abandons s.trace ref s (without_generator k c class in_ s)
  unfolding without_generator delete_abandoned_run
  without_generator-Abandons class in_ ref s e = record {
    run = grind (arith, e, ready-mark_false laws);
    creates = ground (arith, e);
  }

  note_absence-kept :
      (in_ : Input) (s : Session k)
      → ((note_absence k c in_ s).obj.status.generator_ref ≡ s.obj.status.generator_ref)
        × (created_runs c (note_absence k c in_ s).trace ≡ created_runs c s.trace)
  unfolding note_absence
  note_absence-kept in_ s = ground arith

  -- Where the object of a managed Artifact is absent, a run is in flight, and the class defines no
  -- generator any more, the reconciliation forgets the run only after the API server confirmed its
  -- deletion: then the Artifact is Degraded and not Ready, without an error. Otherwise the reference
  -- stays and there is an error, so that the deletion is tried again. No run is created.
  pub dispatch-Abandons :
      (class : ArtifactClass) (in_ : Input) (now : ℤ) (obs : Observation) (ref : GeneratorReference)
      (s : Session k)
      → obs.exists ≡ false
      → observe_only s.obj ≡ false
      → class.generator ≡ none
      → s.obj.status.generator_ref ≡ some ref
      → Abandons (note_absence k c in_ s).trace ref s (dispatch k c class in_ now obs s)
  unfolding dispatch reconcile_missing
  dispatch-Abandons class in_ now obs ref s a m n e =
      let s1 = note_absence k c in_ s in
      let (p, q) = note_absence-kept in_ s in
      let x = without_generator-Abandons class in_ ref s1 (ground (arith, p, e)) in
      let same : dispatch k c class in_ now obs s ≡ without_generator k c class in_ s1 =
        ground (arith, a, m, n) in
      record { run = rw same x.run; creates = ground (arith, same, x.creates, q) }
