-- ===== src/Controller/Safety/Creation.antt =====
-- When a reconciliation may create a generator run.
use artifact_controller.Prelude.{true, false, ◌≡◌, ◌⊎◌, inr, arith, All, Option, none, some}
use artifact_controller.Prelude.Int.{ℤ, ◌<ℤ◌, ◌≤ℤ◌}
use artifact_controller.Prelude.Result.{Result, ok, err}
use artifact_controller.Toolkit.{Toolkit, Input}
use artifact_controller.Calls.{Call}
use artifact_controller.Api.Json.{Object}
use artifact_controller.Api.Artifact.{ArtifactStatus, observe_only}
use artifact_controller.Api.ArtifactClass.{
  ArtifactClass, GeneratorSpec, Backoff, effective_backoff, drift_policy,
}
use artifact_controller.Store.{Observation}
use artifact_controller.Controller.Reconcile.{dispatch}
use artifact_controller.Controller.Session.{Cluster, Session, set_status}
use artifact_controller.Controller.Run.{delete_abandoned_run}
use artifact_controller.Controller.Failure.{record_attempt_failure, exhaust_budget, back_off}
use artifact_controller.Controller.Evaluate.{
  evaluate_run, evaluate_unfailed, verify_success, note_success, await_artifact, diagnose,
  watch_progress,
}
use artifact_controller.Controller.Missing.{
  reconcile_missing, note_absence, without_generator, drive_generator, budget_exhausted,
  answer_in_flight, start_attempt, backing_off, next_attempt, reconcile_missing_observed,
}
use artifact_controller.Controller.Existing.{
  reconcile_existing, accept_existing, key_conflict, become_ready, rebaseline, record_drift,
  drifted, is_regenerate,
}

abbrev pub CreatesNothing : Call → Type 0
CreatesNothing (Call.create_run r) = ⊥
CreatesNothing _ = Unit

-- The time has come: no failure forbids an attempt now.
abbrev pub Due : ℤ → Option ℤ → Type 0
Due now none = Unit
Due now (some next) = next ≤ℤ now

module _ (k : Toolkit) (c : Cluster) where
  -- No run is in flight, the failure budget is not used up, and no backoff is running.
  pub record MayAttempt (class : ArtifactClass) (now : ℤ) (st : ArtifactStatus) : Type 0 where
    pub idle : st.generator_ref ≡ none
    pub within : st.failed_attempts <ℤ (effective_backoff class).max_attempts
    pub due : Due now (next_attempt k c (effective_backoff class) st)

  evaluate_run-CreatesNothing :
      (class : ArtifactClass) (g : GeneratorSpec) (run : Object) (now : ℤ) (b : Backoff)
      (s : Session k)
      → All CreatesNothing s.trace
      → All CreatesNothing (evaluate_run k c class g run now b s).0.trace
  unfolding evaluate_run evaluate_unfailed verify_success note_success await_artifact diagnose
      watch_progress record_attempt_failure exhaust_budget back_off
  evaluate_run-CreatesNothing class g run now b s x = ground arith

  answer_in_flight-CreatesNothing :
      (class : ArtifactClass) (g : GeneratorSpec) (r : Result Object) (now : ℤ) (b : Backoff)
      (s : Session k)
      → All CreatesNothing s.trace
      → All CreatesNothing (answer_in_flight k c class g r now b s).0.trace
  unfolding answer_in_flight
  answer_in_flight-CreatesNothing class g (ok run) now b s x =
      evaluate_run-CreatesNothing class g run now b s x
  answer_in_flight-CreatesNothing class g (err e) now b s x = ground arith

  start_attempt-creates :
      (g : GeneratorSpec) (in_ : Input) (now : ℤ) (next : Option ℤ) (s : Session k)
      → All CreatesNothing s.trace
      → All CreatesNothing (start_attempt k c g in_ now next s).0.trace ⊎ Due now next
  unfolding start_attempt backing_off
  start_attempt-creates g in_ now none s x = inr tt
  start_attempt-creates g in_ now (some next) s x = ground arith

  drive_generator-creates :
      (class : ArtifactClass) (g : GeneratorSpec) (in_ : Input) (now : ℤ) (s : Session k)
      → All CreatesNothing s.trace
      → All CreatesNothing (drive_generator k c class g in_ now s).0.trace
        ⊎ MayAttempt class now s.obj.status
  unfolding drive_generator budget_exhausted
  drive_generator-creates class g in_ now s x = grind (
    arith,
    answer_in_flight-CreatesNothing,
    start_attempt-creates g in_ now (next_attempt k c (effective_backoff class) s.obj.status) s,
  )

  -- What has to hold for a run: the Artifact is managed, the store has no object at the key or the
  -- class asks for a drifted one to be regenerated, and an attempt may be made now.
  pub record Permitted (class : ArtifactClass) (obs : Observation) (now : ℤ) (s : Session k)
      : Type 0 where
    pub managed : observe_only s.obj ≡ false
    pub wanted :
        (obs.exists ≡ false)
        ⊎ ((drifted k c obs s.obj.status ≡ true) × (is_regenerate (drift_policy class) ≡ true))
    pub attempt : MayAttempt class now s.obj.status

  reconcile_missing-creates :
      (class : ArtifactClass) (in_ : Input) (now : ℤ) (s : Session k)
      → All CreatesNothing s.trace
      → All CreatesNothing (reconcile_missing k c class in_ now s).0.trace
        ⊎ MayAttempt class now s.obj.status
  unfolding reconcile_missing note_absence without_generator delete_abandoned_run next_attempt
  reconcile_missing-creates class in_ now s x = grind (
    arith,
    λ (g : GeneratorSpec). drive_generator-creates class g in_ now (note_absence k c in_ s),
  )

  -- The session with which a drifted object is treated as missing.
  abbrev as_missing : ArtifactClass → Observation → Input → Session k → Session k
  as_missing class obs in_ s =
      let s1 = record_drift k c class in_.key s.obj.status.digest obs.digest s in
      set_status (record s1.obj.status { digest = "" }) s1

  as_missing-MayAttempt :
      (class : ArtifactClass) (obs : Observation) (in_ : Input) (now : ℤ) (s : Session k)
      → MayAttempt class now (as_missing class obs in_ s).obj.status
      → MayAttempt class now s.obj.status
  unfolding record_drift next_attempt
  as_missing-MayAttempt class obs in_ now s m = ground (arith, m.idle, m.within, m.due)

  as_missing-CreatesNothing :
      (class : ArtifactClass) (obs : Observation) (in_ : Input) (s : Session k)
      → All CreatesNothing s.trace
      → All CreatesNothing (as_missing class obs in_ s).trace
  unfolding record_drift
  as_missing-CreatesNothing class obs in_ s x = ground arith

  reconcile_existing-creates :
      (class : ArtifactClass) (obs : Observation) (in_ : Input) (now : ℤ) (s : Session k)
      → All CreatesNothing s.trace
      → All CreatesNothing (reconcile_existing k c class obs in_ now s).0.trace
        ⊎ ((observe_only s.obj ≡ false)
            × (drifted k c obs s.obj.status ≡ true)
            × (is_regenerate (drift_policy class) ≡ true)
            × MayAttempt class now (as_missing class obs in_ s).obj.status)
  unfolding reconcile_existing accept_existing key_conflict become_ready rebaseline record_drift
  reconcile_existing-creates class obs in_ now s x = ground (
    arith,
    reconcile_missing-creates class in_ now (as_missing class obs in_ s)
        (as_missing-CreatesNothing class obs in_ s x),
  )

  -- A reconciliation that has the store's answer creates a generator run only if the Artifact is
  -- not observe-only, the object is absent or (under the policy Regenerate) has drifted, no run is
  -- in flight, the failure budget is not used up, and the backoff of the last failure is over.
  pub dispatch-creates :
      (class : ArtifactClass) (in_ : Input) (now : ℤ) (obs : Observation) (s : Session k)
      → All CreatesNothing s.trace
      → All CreatesNothing (dispatch k c class in_ now obs s).0.trace ⊎ Permitted class obs now s
  unfolding dispatch reconcile_missing_observed
  dispatch-creates class in_ now obs s x = ground (
    arith,
    reconcile_existing-creates class obs in_ now s x,
    reconcile_missing-creates class in_ now s x,
    as_missing-MayAttempt class obs in_ now s,
  )
