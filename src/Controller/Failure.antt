-- ===== src/Controller/Failure.antt =====
-- recordAttemptFailure of artifact_controller.go: the bookkeeping of a failed attempt.
use artifact_controller.Prelude.{String, none, some, [], ◌∷◌, if◌then◌else◌}
use artifact_controller.Prelude.Int.{ℤ, leb_ℤ, mul64, inc32}
use artifact_controller.Api.Conditions.{ConditionType, Reason, State, reason_text}
use artifact_controller.Api.Artifact.{ArtifactStatus, get_interval, retry_annotation}
use artifact_controller.Api.ArtifactClass.{Backoff}
use artifact_controller.Toolkit.{Toolkit, Arg}
use artifact_controller.Calls.{EventType}
use artifact_controller.Controller.Session.{
  Cluster, Session, Outcome, requeue, emit, set_status, mark_false, mark_stalled, mark_reconciling,
}
use artifact_controller.Controller.Timing.{jittered, backoff_delay}

module _ (k : Toolkit) (c : Cluster) where
  -- The status that a failed attempt leaves before the budget is looked at.
  unfoldable pub failed_status : Reason → String → ℤ → ArtifactStatus → ArtifactStatus
  failed_status reason msg now st =
      mark_false k ConditionType.generator_succeeded reason msg (record st {
        failed_attempts = inc32 st.failed_attempts;
        last_failure_time = some now;
        last_failure_message = msg;
        generator_ref = none;
        generator_succeeded_at = none;
      })

  -- The end of recordAttemptFailure where the budget is used up.
  unfoldable pub exhaust_budget :
      String → Backoff → ArtifactStatus → Session k → Session k × Outcome
  exhaust_budget msg b st s =
      let failures = Arg.num st.failed_attempts in
      let st1 =
        mark_stalled k Reason.failure_budget_exhausted
          (k.sprintf "%d consecutive generator failures (budget %d); set the %q annotation to retry"
            (failures ∷ Arg.num b.max_attempts ∷ Arg.text retry_annotation ∷ []))
          (record st { state = State.degraded }) in
      let st2 =
        mark_false k ConditionType.ready Reason.failure_budget_exhausted
          (k.sprintf "degraded after %d consecutive generator failures: %s"
            (failures ∷ Arg.text msg ∷ []))
          st1 in
      let s1 =
        emit EventType.warning "Degraded"
          (k.sprintf "failure budget exhausted (%d/%d)" (failures ∷ Arg.num b.max_attempts ∷ []))
          (set_status st2 s) in
      requeue (jittered c s1.trace (mul64 10 (get_interval s.obj))) s1

  -- The end of recordAttemptFailure where attempts are left.
  unfoldable pub back_off :
      Reason → String → Backoff → ArtifactStatus → Session k → Session k × Outcome
  back_off reason msg b st s =
      let st1 =
        mark_reconciling k Reason.backoff_pending
          (k.sprintf "attempt %d failed; backing off" (Arg.num st.attempts ∷ []))
          (record st { state = State.generating }) in
      requeue (backoff_delay st.failed_attempts b.initial b.max)
        (set_status (mark_false k ConditionType.ready reason msg st1) s)

  -- recordAttemptFailure
  unfoldable pub record_attempt_failure :
      Reason → String → ℤ → Backoff → Session k → Session k × Outcome
  record_attempt_failure reason msg now b s =
      let st = failed_status reason msg now s.obj.status in
      let s1 = emit EventType.warning (reason_text reason) msg (set_status st s) in
      if leb_ℤ b.max_attempts st.failed_attempts
      then exhaust_budget msg b st s1
      else back_off reason msg b st s1
