-- ===== src/Controller/Safety/Deletion/Generation.antt =====
-- The generator side of a reconciliation deletes nothing from the store.
use artifact_controller.Prelude.{String, arith}
use artifact_controller.Prelude.Int.{ℤ}
use artifact_controller.Prelude.Result.{Result, ok, err}
use artifact_controller.Toolkit.{Toolkit, Input}
use artifact_controller.Api.Json.{Object}
use artifact_controller.Api.ArtifactClass.{ArtifactClass, GeneratorSpec, Backoff}
use artifact_controller.Store.{Observation}
use artifact_controller.Controller.Session.{Cluster, Session}
use artifact_controller.Controller.Run.{delete_abandoned_run, ensure_generator_watch}
use artifact_controller.Controller.Failure.{record_attempt_failure, exhaust_budget, back_off}
use artifact_controller.Controller.Evaluate.{
  evaluate_run, evaluate_unfailed, verify_success, note_success, await_artifact, diagnose,
  watch_progress,
}
use artifact_controller.Controller.Create.{create_run, submit_run, adopt, create_refused, created}
use artifact_controller.Controller.Missing.{
  reconcile_missing, note_absence, without_generator, drive_generator, budget_exhausted,
  answer_in_flight, start_attempt, backing_off,
}
use artifact_controller.Controller.Existing.{
  reconcile_existing, accept_existing, key_conflict, become_ready, rebaseline, record_drift,
}
use artifact_controller.Controller.Safety.Deletion.{Guarded}

module _ (k : Toolkit) (c : Cluster) (ref h : String) where
  evaluate_run-Guarded :
      (class : ArtifactClass) (g : GeneratorSpec) (run : Object) (now : ℤ) (b : Backoff)
      (s : Session k)
      → Guarded k c ref h s.trace
      → Guarded k c ref h (evaluate_run k c class g run now b s).0.trace
  unfolding evaluate_run evaluate_unfailed verify_success note_success await_artifact diagnose
      watch_progress record_attempt_failure exhaust_budget back_off
  evaluate_run-Guarded class g run now b s x = ground arith

  create_run-Guarded :
      (g : GeneratorSpec) (in_ : Input) (s : Session k)
      → Guarded k c ref h s.trace
      → Guarded k c ref h (create_run k c g in_ s).0.trace
  unfolding create_run submit_run adopt create_refused created ensure_generator_watch
  create_run-Guarded g in_ s x = ground arith

  answer_in_flight-Guarded :
      (class : ArtifactClass) (g : GeneratorSpec) (r : Result Object) (now : ℤ) (b : Backoff)
      (s : Session k)
      → Guarded k c ref h s.trace
      → Guarded k c ref h (answer_in_flight k c class g r now b s).0.trace
  unfolding answer_in_flight
  answer_in_flight-Guarded class g (ok run) now b s x = evaluate_run-Guarded class g run now b s x
  answer_in_flight-Guarded class g (err e) now b s x = ground arith

  drive_generator-Guarded :
      (class : ArtifactClass) (g : GeneratorSpec) (in_ : Input) (now : ℤ) (s : Session k)
      → Guarded k c ref h s.trace
      → Guarded k c ref h (drive_generator k c class g in_ now s).0.trace
  unfolding drive_generator budget_exhausted start_attempt backing_off
  drive_generator-Guarded class g in_ now s x =
      grind (arith, answer_in_flight-Guarded, create_run-Guarded g in_ s)

  pub reconcile_missing-Guarded :
      (class : ArtifactClass) (in_ : Input) (now : ℤ) (s : Session k)
      → Guarded k c ref h s.trace
      → Guarded k c ref h (reconcile_missing k c class in_ now s).0.trace
  unfolding reconcile_missing note_absence without_generator delete_abandoned_run
  reconcile_missing-Guarded class in_ now s x = grind (arith, drive_generator-Guarded)

  pub reconcile_existing-Guarded :
      (class : ArtifactClass) (obs : Observation) (in_ : Input) (now : ℤ) (s : Session k)
      → Guarded k c ref h s.trace
      → Guarded k c ref h (reconcile_existing k c class obs in_ now s).0.trace
  unfolding reconcile_existing accept_existing key_conflict become_ready rebaseline record_drift
  reconcile_existing-Guarded class obs in_ now s x = grind (arith, reconcile_missing-Guarded)
