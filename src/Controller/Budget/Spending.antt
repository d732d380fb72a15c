-- ===== src/Controller/Budget/Spending.antt =====
-- A run in flight is kept or charged by its evaluation.
use artifact_controller.Prelude.{◌≡◌, arith}
use artifact_controller.Prelude.Int.{ℤ}
use artifact_controller.Toolkit.{Toolkit}
use artifact_controller.Api.Json.{Object}
use artifact_controller.Api.Conditions.{Reason}
use artifact_controller.Prelude.{String}
use artifact_controller.Api.ArtifactClass.{ArtifactClass, GeneratorSpec, Backoff}
use artifact_controller.Controller.Session.{Cluster, Session}
use artifact_controller.Controller.Failure.{
  record_attempt_failure, failed_status, exhaust_budget, back_off,
}
use artifact_controller.Controller.Evaluate.{
  evaluate_run, evaluate_unfailed, verify_success, note_success, await_artifact, diagnose,
  watch_progress, Diagnosis,
}
use artifact_controller.Controller.Budget.Ledger.{Spends}

module _ {k : Toolkit} (c : Cluster) where
  record_attempt_failure-Spends :
      (r : Reason) (msg : String) (now : ℤ) (b : Backoff) (s : Session k)
      → Spends c s (record_attempt_failure k c r msg now b s).0
  unfolding record_attempt_failure failed_status exhaust_budget back_off
  record_attempt_failure-Spends r msg now b s = ground arith

  verify_success-Spends :
      (class : ArtifactClass) (run : Object) (now : ℤ) (b : Backoff) (s : Session k)
      → Spends c s (verify_success k c class run now b s).0
  unfolding verify_success note_success await_artifact
  verify_success-Spends class run now b s = grind (arith, record_attempt_failure-Spends)

  watch_progress-Spends :
      (class : ArtifactClass) (run : Object) (d : Diagnosis k c) (now : ℤ) (b : Backoff)
      (s : Session k)
      → Spends c s (watch_progress k c class run d now b s).0
  unfolding watch_progress
  watch_progress-Spends class run d now b s = grind (arith, record_attempt_failure-Spends)

  diagnose-kept :
      (g : GeneratorSpec) (run : Object) (now : ℤ) (s : Session k)
      → ((diagnose k c g run now s).1.obj ≡ s.obj) × ((diagnose k c g run now s).1.trace ≡ s.trace)
  unfolding diagnose
  diagnose-kept g run now s = ground arith

  evaluate_unfailed-Spends :
      (class : ArtifactClass) (g : GeneratorSpec) (run : Object) (now : ℤ) (b : Backoff)
      (s : Session k)
      → Spends c s (evaluate_unfailed k c class g run now b s).0
  unfolding evaluate_unfailed
  evaluate_unfailed-Spends class g run now b s =
      grind (arith, verify_success-Spends, watch_progress-Spends, diagnose-kept)

  pub evaluate_run-Spends :
      (class : ArtifactClass) (g : GeneratorSpec) (run : Object) (now : ℤ) (b : Backoff)
      (s : Session k)
      → Spends c s (evaluate_run k c class g run now b s).0
  unfolding evaluate_run
  evaluate_run-Spends class g run now b s =
      grind (arith, record_attempt_failure-Spends, evaluate_unfailed-Spends)
