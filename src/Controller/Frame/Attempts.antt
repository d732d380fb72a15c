-- ===== src/Controller/Frame/Attempts.antt =====
-- The generator side of a reconciliation writes the status only.
use artifact_controller.Prelude.{String, ◌≡◌, arith, Option, none, some}
use artifact_controller.Prelude.Int.{ℤ}
use artifact_controller.Prelude.Result.{Result, ok, err}
use artifact_controller.Toolkit.{Toolkit, Input}
use artifact_controller.Api.Json.{Object}
use artifact_controller.Api.Artifact.{Artifact}
use artifact_controller.Api.Conditions.{Reason}
use artifact_controller.Api.ArtifactClass.{ArtifactClass, GeneratorSpec, Backoff}
use artifact_controller.Controller.Session.{Cluster, Session}
use artifact_controller.Controller.Run.{delete_abandoned_run, ensure_generator_watch}
use artifact_controller.Controller.Failure.{record_attempt_failure, exhaust_budget, back_off}
use artifact_controller.Controller.Evaluate.{
  evaluate_run, evaluate_unfailed, verify_success, note_success, await_artifact, diagnose,
  watch_progress, Diagnosis,
}
use artifact_controller.Controller.Create.{create_run, submit_run, adopt, create_refused, created}
use artifact_controller.Controller.Missing.{
  reconcile_missing, note_absence, without_generator, drive_generator, budget_exhausted,
  answer_in_flight, start_attempt, backing_off, reconcile_missing_observed,
}

-- The two differ in the status at most.
abbrev pub SameButStatus : Artifact → Artifact → Type 0
SameButStatus a b = b ≡ record a { status = b.status }

module _ {k : Toolkit} (c : Cluster) where
  record_attempt_failure-frame :
      (r : Reason) (msg : String) (now : ℤ) (b : Backoff) (s : Session k)
      → SameButStatus s.obj (record_attempt_failure k c r msg now b s).0.obj
  unfolding record_attempt_failure exhaust_budget back_off
  record_attempt_failure-frame r msg now b s = ground arith

  verify_success-frame :
      (class : ArtifactClass) (run : Object) (now : ℤ) (b : Backoff) (s : Session k)
      → SameButStatus s.obj (verify_success k c class run now b s).0.obj
  unfolding verify_success note_success await_artifact
  verify_success-frame class run now b s = grind (arith, record_attempt_failure-frame)

  watch_progress-frame :
      (class : ArtifactClass) (run : Object) (d : Diagnosis k c) (now : ℤ) (b : Backoff)
      (s : Session k)
      → SameButStatus s.obj (watch_progress k c class run d now b s).0.obj
  unfolding watch_progress
  watch_progress-frame class run d now b s = grind (arith, record_attempt_failure-frame)

  evaluate_run-frame :
      (class : ArtifactClass) (g : GeneratorSpec) (run : Object) (now : ℤ) (b : Backoff)
      (s : Session k)
      → SameButStatus s.obj (evaluate_run k c class g run now b s).0.obj
  unfolding evaluate_run evaluate_unfailed diagnose
  evaluate_run-frame class g run now b s =
      grind (arith, record_attempt_failure-frame, verify_success-frame, watch_progress-frame)

  submit_run-frame :
      (in_ : Input) (run : Object) (s : Session k)
      → SameButStatus s.obj (submit_run k c in_ run s).0.obj
  unfolding submit_run adopt create_refused created
  submit_run-frame in_ run s = ground arith

  create_run-frame :
      (g : GeneratorSpec) (in_ : Input) (s : Session k)
      → SameButStatus s.obj (create_run k c g in_ s).0.obj
  unfolding create_run ensure_generator_watch
  create_run-frame g in_ s = grind (arith, submit_run-frame)

  start_attempt-frame :
      (g : GeneratorSpec) (in_ : Input) (now : ℤ) (next : Option ℤ) (s : Session k)
      → SameButStatus s.obj (start_attempt k c g in_ now next s).0.obj
  unfolding start_attempt backing_off
  start_attempt-frame g in_ now none s = create_run-frame g in_ s
  start_attempt-frame g in_ now (some next) s = grind (arith, create_run-frame)

  answer_in_flight-frame :
      (class : ArtifactClass) (g : GeneratorSpec) (r : Result Object) (now : ℤ) (b : Backoff)
      (s : Session k)
      → SameButStatus s.obj (answer_in_flight k c class g r now b s).0.obj
  unfolding answer_in_flight
  answer_in_flight-frame class g (ok run) now b s = evaluate_run-frame class g run now b s
  answer_in_flight-frame class g (err e) now b s = ground arith

  drive_generator-frame :
      (class : ArtifactClass) (g : GeneratorSpec) (in_ : Input) (now : ℤ) (s : Session k)
      → SameButStatus s.obj (drive_generator k c class g in_ now s).0.obj
  unfolding drive_generator budget_exhausted
  drive_generator-frame class g in_ now s =
      grind (arith, answer_in_flight-frame, start_attempt-frame)

  without_generator-frame :
      (class : ArtifactClass) (in_ : Input) (s : Session k)
      → SameButStatus s.obj (without_generator k c class in_ s).0.obj
  unfolding without_generator delete_abandoned_run
  without_generator-frame class in_ s = ground arith

  pub reconcile_missing-frame :
      (class : ArtifactClass) (in_ : Input) (now : ℤ) (s : Session k)
      → SameButStatus s.obj (reconcile_missing k c class in_ now s).0.obj
  unfolding reconcile_missing note_absence
  reconcile_missing-frame class in_ now s =
      grind (arith, without_generator-frame, drive_generator-frame)

  pub missing_observed-frame :
      (in_ : Input) (s : Session k)
      → SameButStatus s.obj (reconcile_missing_observed k c in_ s).0.obj
  unfolding reconcile_missing_observed
  missing_observed-frame in_ s = ground arith
