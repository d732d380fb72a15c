-- ===== src/Controller/Missing.antt =====
-- reconcileMissing and reconcileMissingObserved of artifact_controller.go: no object at the key.
use artifact_controller.Prelude.{Option, none, some, [], ◌∷◌, if◌then◌else◌}
use artifact_controller.Prelude.Int.{ℤ, pos, ltb_ℤ, leb_ℤ, ◌+ℤ◌, add64, sub_time, mul64, second}
use artifact_controller.Prelude.Result.{Error, Result, ok, err, is_not_found}
use artifact_controller.Api.Json.{Object}
use artifact_controller.Api.Conditions.{ConditionType, Reason, State}
use artifact_controller.Api.Artifact.{
  ArtifactStatus, GeneratorReference, get_interval, retry_annotation,
}
use artifact_controller.Api.ArtifactClass.{ArtifactClass, GeneratorSpec, Backoff, effective_backoff}
use artifact_controller.Toolkit.{Toolkit, Input, Arg}
use artifact_controller.Calls.{Call, EventType}
use artifact_controller.Controller.Session.{
  Cluster, Session, Outcome, requeue, fail, call, emit, set_status, mark_false, drop_condition,
  mark_stalled, mark_reconciling, forget_run,
}
use artifact_controller.Controller.Timing.{jittered, backoff_delay}
use artifact_controller.Controller.Run.{delete_abandoned_run}
use artifact_controller.Controller.Evaluate.{evaluate_run}
use artifact_controller.Controller.Create.{create_run}

module _ (k : Toolkit) (c : Cluster) where
  -- Where the class has no generator: a run left over is cancelled, and the Artifact stalls.
  abbrev cancel_leftover :
      ArtifactClass → Option GeneratorReference → Session k → Session k × Option Error
  cancel_leftover class none s = (s, none)
  cancel_leftover class (some ref) s =
      let (s1, e) =
        delete_abandoned_run k c ref
          (k.sprintf "class %q no longer defines a generator" (Arg.text class.name ∷ [])) s in
      elim e [ none ↦ (forget_run k s1, none) | some x ↦ (s1, some x) ]

  abbrev stall_without_generator : ArtifactClass → Input → Session k → Session k × Outcome
  stall_without_generator class in_ s = requeue (jittered c s.trace (get_interval s.obj)) (
      set_status
        (mark_false k ConditionType.ready Reason.generator_not_configured
          (k.sprintf "no artifact at %q and class %q defines no generator"
            (Arg.text in_.key ∷ Arg.text class.name ∷ []))
          (mark_stalled k Reason.generator_not_configured
            (k.sprintf
              "class %q defines no generator; set managementPolicy: Observe to watch without generating"
              (Arg.text class.name ∷ []))
            (record s.obj.status { state = State.degraded })))
        s)

  unfoldable pub without_generator : ArtifactClass → Input → Session k → Session k × Outcome
  without_generator class in_ s =
      let (s1, e) = cancel_leftover class s.obj.status.generator_ref s in
      elim e [ none ↦ stall_without_generator class in_ s1 | some x ↦ fail x s1 ]

  -- The failure budget is used up: the store is still looked at, on a slow cadence.
  unfoldable pub budget_exhausted : Backoff → Session k → Session k × Outcome
  budget_exhausted b s =
      let failures = Arg.num s.obj.status.failed_attempts in
      requeue (jittered c s.trace (mul64 10 (get_interval s.obj))) (
        set_status
          (mark_false k ConditionType.ready Reason.failure_budget_exhausted
            (k.sprintf "degraded after %d consecutive generator failures" (failures ∷ []))
            (mark_stalled k Reason.failure_budget_exhausted
              (k.sprintf
                "%d consecutive generator failures (budget %d); set the %q annotation to retry"
                (failures ∷ Arg.num b.max_attempts ∷ Arg.text retry_annotation ∷ []))
              (record s.obj.status { state = State.degraded })))
          s)

  -- The answer for the run in flight: gone, unknown, or there to be evaluated.
  unfoldable pub answer_in_flight :
      ArtifactClass → GeneratorSpec → Result Object → ℤ → Backoff → Session k → Session k × Outcome
  answer_in_flight class g (err e) now b s =
      if is_not_found e.kind
      then requeue (pos second) (
          set_status (record s.obj.status { generator_ref = none; generator_succeeded_at = none })
            s)
      else fail e s
  answer_in_flight class g (ok run) now b s = evaluate_run k c class g run now b s

  -- The time before which the backoff forbids a new attempt, and `none` where nothing failed.
  unfoldable pub next_attempt : Backoff → ArtifactStatus → Option ℤ
  next_attempt b st = elim st.last_failure_time [
    | none ↦ none
    | some lf ↦
        if ltb_ℤ (pos 0) st.failed_attempts
        then some (lf +ℤ backoff_delay st.failed_attempts b.initial b.max)
        else none
  ]

  unfoldable pub backing_off : ℤ → ℤ → Session k → Session k × Outcome
  backing_off next now s = requeue (add64 (sub_time next now) (pos second)) (
      set_status
        (mark_false k ConditionType.ready Reason.backoff_pending
          (k.sprintf "in backoff after %d failure(s)" (Arg.num s.obj.status.failed_attempts ∷ []))
          (mark_reconciling k Reason.backoff_pending
            (k.sprintf "next generator attempt at %s" (Arg.instant next ∷ []))
            (record s.obj.status { state = State.generating })))
        s)

  unfoldable pub start_attempt :
      GeneratorSpec → Input → ℤ → Option ℤ → Session k → Session k × Outcome
  start_attempt g in_ now none s = create_run k c g in_ s
  start_attempt g in_ now (some next) s =
      if ltb_ℤ now next then backing_off next now s else create_run k c g in_ s

  -- The budget, then the run in flight or a new attempt.
  unfoldable pub drive_generator :
      ArtifactClass → GeneratorSpec → Input → ℤ → Session k → Session k × Outcome
  drive_generator class g in_ now s =
      let b = effective_backoff class in
      if leb_ℤ b.max_attempts s.obj.status.failed_attempts
      then budget_exhausted b s
      else elim s.obj.status.generator_ref [
        | some ref ↦
            answer_in_flight class g (c.get_run s.trace ref) now b (call (Call.get_run ref) s)
        | none ↦ start_attempt g in_ now (next_attempt b s.obj.status) s
      ]

  -- The event on the first absence, the condition, and the forgotten digest.
  unfoldable pub note_absence : Input → Session k → Session k
  note_absence in_ s =
      let st =
        mark_false k ConditionType.artifact_in_store Reason.artifact_missing
          (k.sprintf "no artifact at %q" (Arg.text in_.key ∷ [])) s.obj.status in
      let s1 = set_status (record st { digest = "" }) s in
      if k.is_true ConditionType.ready s.obj.status.conditions
      then emit EventType.warning "ArtifactMissing"
          (k.sprintf "artifact disappeared from store key %q; re-triggering generator"
            (Arg.text in_.key ∷ []))
          s1
      else s1

  -- reconcileMissing
  unfoldable pub reconcile_missing : ArtifactClass → Input → ℤ → Session k → Session k × Outcome
  reconcile_missing class in_ now s =
      let s1 = note_absence in_ s in
      elim class.generator [
        | none ↦ without_generator class in_ s1
        | some g ↦ drive_generator class g in_ now s1
      ]

  abbrev note_observed_absence : Input → Session k → Session k
  note_observed_absence in_ s =
      if k.is_true ConditionType.ready s.obj.status.conditions
      then emit EventType.warning "ArtifactMissing"
          (k.sprintf
            "artifact disappeared from store key %q; managementPolicy is Observe, not regenerating"
            (Arg.text in_.key ∷ []))
          s
      else s

  -- reconcileMissingObserved
  unfoldable pub reconcile_missing_observed : Input → Session k → Session k × Outcome
  reconcile_missing_observed in_ s =
      let s1 = note_observed_absence in_ s in
      let st = drop_condition k ConditionType.generator_succeeded (record s.obj.status {
        failed_attempts = pos 0;
        last_failure_time = none;
        last_failure_message = "";
        digest = "";
        state = State.missing;
      }) in
      let st1 =
        drop_condition k ConditionType.stalled (drop_condition k ConditionType.reconciling st) in
      let st2 =
        mark_false k ConditionType.artifact_in_store Reason.artifact_missing
          (k.sprintf "no artifact at %q" (Arg.text in_.key ∷ [])) st1 in
      let st3 =
        mark_false k ConditionType.ready Reason.artifact_missing
          (k.sprintf
            "no artifact at %q; waiting for an external producer (managementPolicy: Observe)"
            (Arg.text in_.key ∷ []))
          st2 in
      requeue (jittered c s1.trace (get_interval s1.obj)) (set_status st3 s1)
