-- ===== src/Controller/Budget/Failures.antt =====
-- How a reconciliation changes the count of consecutive failures.
use artifact_controller.Prelude.{
  String, false, ◌≡◌, ◌⊎◌, arith, Option, none, some, is_none, if◌then◌else◌,
}
use artifact_controller.Prelude.Int.{ℤ, ◌<ℤ◌, leb_ℤ, inc32}
use artifact_controller.Prelude.Result.{Result, ok, err}
use artifact_controller.Toolkit.{Toolkit, Input}
use artifact_controller.Api.Json.{Object}
use artifact_controller.Api.Artifact.{ArtifactStatus}
use artifact_controller.Api.Conditions.{Reason, State}
use artifact_controller.Api.ArtifactClass.{ArtifactClass, GeneratorSpec, Backoff, effective_backoff}
use artifact_controller.Controller.Session.{Cluster, Session}
use artifact_controller.Controller.Run.{delete_abandoned_run, ensure_generator_watch}
use artifact_controller.Controller.Failure.{
  record_attempt_failure, failed_status, exhaust_budget, back_off,
}
use artifact_controller.Controller.Evaluate.{
  evaluate_run, evaluate_unfailed, verify_success, note_success, await_artifact, diagnose,
  watch_progress, Diagnosis,
}
use artifact_controller.Controller.Create.{create_run, submit_run, adopt, create_refused, created}
use artifact_controller.Controller.Missing.{
  reconcile_missing, note_absence, without_generator, drive_generator, budget_exhausted,
  answer_in_flight, start_attempt, backing_off,
}

module _ {k : Toolkit} where
  abbrev pub failures : Session k → ℤ
  failures s = s.obj.status.failed_attempts

  -- The failure of an attempt is in the status: it is counted and dated, the run is forgotten, and
  -- the Artifact is degraded where the budget is used up.
  pub record Failed (b : Backoff) (now : ℤ) (before : ℤ) (r : Session k) : Type 0 where
    pub counted : failures r ≡ inc32 before
    pub dated : r.obj.status.last_failure_time ≡ some now
    pub forgotten : r.obj.status.generator_ref ≡ none
    pub parked :
        r.obj.status.state
        ≡ (if leb_ℤ b.max_attempts (inc32 before) then State.degraded else State.generating)

module _ {k : Toolkit} (c : Cluster) where
  record_attempt_failure-Failed :
      (r : Reason) (msg : String) (now : ℤ) (b : Backoff) (s : Session k)
      → Failed b now (failures s) (record_attempt_failure k c r msg now b s).0
  unfolding record_attempt_failure failed_status exhaust_budget back_off
  record_attempt_failure-Failed r msg now b s = ground arith

  verify_success-failures :
      (class : ArtifactClass) (run : Object) (now : ℤ) (b : Backoff) (s : Session k)
      → (failures (verify_success k c class run now b s).0 ≡ failures s)
        ⊎ Failed b now (failures s) (verify_success k c class run now b s).0
  unfolding verify_success note_success await_artifact
  verify_success-failures class run now b s = grind (arith, record_attempt_failure-Failed)

  watch_progress-failures :
      (class : ArtifactClass) (run : Object) (d : Diagnosis k c) (now : ℤ) (b : Backoff)
      (s : Session k)
      → (failures (watch_progress k c class run d now b s).0 ≡ failures s)
        ⊎ Failed b now (failures s) (watch_progress k c class run d now b s).0
  unfolding watch_progress
  watch_progress-failures class run d now b s = grind (arith, record_attempt_failure-Failed)

  diagnose-obj :
      (g : GeneratorSpec) (run : Object) (now : ℤ) (s : Session k)
      → (diagnose k c g run now s).1.obj ≡ s.obj
  unfolding diagnose
  diagnose-obj g run now s = ground arith

  evaluate_unfailed-failures :
      (class : ArtifactClass) (g : GeneratorSpec) (run : Object) (now : ℤ) (b : Backoff)
      (s : Session k)
      → (failures (evaluate_unfailed k c class g run now b s).0 ≡ failures s)
        ⊎ Failed b now (failures s) (evaluate_unfailed k c class g run now b s).0
  unfolding evaluate_unfailed
  evaluate_unfailed-failures class g run now b s =
      grind (arith, verify_success-failures, watch_progress-failures, diagnose-obj)

  evaluate_run-failures :
      (class : ArtifactClass) (g : GeneratorSpec) (run : Object) (now : ℤ) (b : Backoff)
      (s : Session k)
      → (failures (evaluate_run k c class g run now b s).0 ≡ failures s)
        ⊎ Failed b now (failures s) (evaluate_run k c class g run now b s).0
  unfolding evaluate_run
  evaluate_run-failures class g run now b s =
      grind (arith, record_attempt_failure-Failed, evaluate_unfailed-failures)

  submit_run-failures :
      (in_ : Input) (run : Object) (s : Session k)
      → failures (submit_run k c in_ run s).0 ≡ failures s
  unfolding submit_run adopt create_refused created
  submit_run-failures in_ run s = ground arith

  create_run-failures :
      (g : GeneratorSpec) (in_ : Input) (s : Session k)
      → failures (create_run k c g in_ s).0 ≡ failures s
  unfolding create_run ensure_generator_watch
  create_run-failures g in_ s = grind (arith, submit_run-failures)

  start_attempt-failures :
      (g : GeneratorSpec) (in_ : Input) (now : ℤ) (next : Option ℤ) (s : Session k)
      → failures (start_attempt k c g in_ now next s).0 ≡ failures s
  unfolding start_attempt backing_off
  start_attempt-failures g in_ now none s = create_run-failures g in_ s
  start_attempt-failures g in_ now (some next) s = grind (arith, create_run-failures)

  answer_in_flight-failures :
      (class : ArtifactClass) (g : GeneratorSpec) (r : Result Object) (now : ℤ) (b : Backoff)
      (s : Session k)
      → (failures (answer_in_flight k c class g r now b s).0 ≡ failures s)
        ⊎ Failed b now (failures s) (answer_in_flight k c class g r now b s).0
  unfolding answer_in_flight
  answer_in_flight-failures class g (ok run) now b s = evaluate_run-failures class g run now b s
  answer_in_flight-failures class g (err e) now b s = ground arith

  -- A failure is recorded for the run in flight, within the budget.
  pub record Spent (class : ArtifactClass) (now : ℤ) (st : ArtifactStatus) (r : Session k)
      : Type 0 where
    pub in_flight : is_none st.generator_ref ≡ false
    pub within : st.failed_attempts <ℤ (effective_backoff class).max_attempts
    pub recorded : Failed (effective_backoff class) now st.failed_attempts r

  drive_generator-failures :
      (class : ArtifactClass) (g : GeneratorSpec) (in_ : Input) (now : ℤ) (s : Session k)
      → (failures (drive_generator k c class g in_ now s).0 ≡ failures s)
        ⊎ Spent class now s.obj.status (drive_generator k c class g in_ now s).0
  unfolding drive_generator budget_exhausted
  drive_generator-failures class g in_ now s =
      grind (arith, answer_in_flight-failures, start_attempt-failures)

  without_generator-failures :
      (class : ArtifactClass) (in_ : Input) (s : Session k)
      → failures (without_generator k c class in_ s).0 ≡ failures s
  unfolding without_generator delete_abandoned_run
  without_generator-failures class in_ s = ground arith

  pub reconcile_missing-failures :
      (class : ArtifactClass) (in_ : Input) (now : ℤ) (s : Session k)
      → (failures (reconcile_missing k c class in_ now s).0 ≡ failures s)
        ⊎ Spent class now s.obj.status (reconcile_missing k c class in_ now s).0
  unfolding reconcile_missing note_absence
  reconcile_missing-failures class in_ now s =
      grind (arith, without_generator-failures, drive_generator-failures)
