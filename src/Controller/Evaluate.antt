-- ===== src/Controller/Evaluate.antt =====
-- evaluateRun of artifact_controller.go: what the class's expressions say of a run.
pub mod Verdicts
use artifact_controller.Prelude.{
  ◌*◌, String, Bool, false, not, ◌&&◌, Option, none, some, [], ◌∷◌, ◌==◌, if◌then◌else◌,
}
use artifact_controller.Prelude.Int.{ℤ, pos, ltb_ℤ, add64, sub64, sub_time, second}
use artifact_controller.Prelude.Result.{Result, ok, err}
use artifact_controller.Api.Json.{Object}
use artifact_controller.Api.Conditions.{ConditionType, Reason, State}
use artifact_controller.Api.ArtifactClass.{
  ArtifactClass, GeneratorSpec, Backoff, grace_period, progress_deadline, stamp_metadata_key,
}
use artifact_controller.Toolkit.{Toolkit, Arg}
use artifact_controller.Calls.{Call, EventType}
use artifact_controller.Generator.Evaluator.{eval_bool}
use artifact_controller.Controller.Session.{
  Cluster, Session, Outcome, requeue, call, emit, set_status, mark_true, mark_false,
  mark_reconciling,
}
use artifact_controller.Controller.Timing.{jittered, unrecognized_grace_period}
use artifact_controller.Controller.Run.{generator_ref_for, run_start_time, summarize_status}
use artifact_controller.Controller.Failure.{record_attempt_failure}

module _ (k : Toolkit) (c : Cluster) where
  -- An expression that errors has not matched.
  abbrev pub matched : Result Bool → Bool
  matched (ok b) = b
  matched (err e) = false

  -- The part of evaluateRun behind succeededWhen: the first observation of success, then the
  -- verification grace period.
  unfoldable pub note_success : Object → ℤ → Session k → Session k
  note_success run now s = elim s.obj.status.generator_succeeded_at [
    | some t ↦ s
    | none ↦
        let args = Arg.text (k.get_kind run) ∷ Arg.text (k.get_name run) ∷ [] in
        emit EventType.normal "GeneratorSucceeded"
          (k.sprintf "generator %s %q succeeded; verifying artifact at %q" (
            Arg.text (k.get_kind run) ∷ Arg.text (k.get_name run) ∷ Arg.text s.obj.status.key ∷ []))
          (set_status
            (mark_true k ConditionType.generator_succeeded Reason.generator_succeeded
              (k.sprintf "generator %s %q succeeded" args)
              (record s.obj.status { generator_succeeded_at = some now }))
            s)
  ]

  abbrev time_or : ℤ → Option ℤ → ℤ
  time_or d none = d
  time_or d (some t) = t

  unfoldable pub await_artifact : ArtifactClass → ℤ → ℤ → Session k → Session k × Outcome
  await_artifact class elapsed grace s =
      let st =
        mark_reconciling k Reason.awaiting_artifact
          (k.sprintf "generator succeeded %s ago; waiting up to %s for artifact at %q"
            (Arg.span (k.round_second elapsed) ∷ Arg.span grace ∷ Arg.text s.obj.status.key ∷ []))
          (record s.obj.status { state = State.awaiting_artifact }) in
      let rem = sub64 grace elapsed in
      requeue (if ltb_ℤ rem (pos (10 * second)) then add64 rem (pos second) else pos (10 * second))
        (set_status
          (mark_false k ConditionType.ready Reason.awaiting_artifact
            "waiting for artifact to appear in store" st)
          s)

  unfoldable pub verify_success :
      ArtifactClass → Object → ℤ → Backoff → Session k → Session k × Outcome
  verify_success class run now b s =
      let s1 = note_success run now s in
      let grace = grace_period class in
      let elapsed = sub_time now (time_or now s1.obj.status.generator_succeeded_at) in
      if ltb_ℤ elapsed grace
      then await_artifact class elapsed grace s1
      else record_attempt_failure k c Reason.succeeded_without_artifact
          (k.sprintf
            "generator succeeded but no matching artifact appeared at %q within %s; check that the generator uploads to the expected key and stamps %q"
            (Arg.text s1.obj.status.key
              ∷ Arg.span grace
              ∷ Arg.text (stamp_metadata_key k.to_lower class)
              ∷ []))
          now b s1

  -- What evaluateRun says of a run that neither succeeded nor failed.
  pub record Diagnosis : Type 0 where
    pub reason : Reason
    pub detail : String

  abbrev in_progress : Diagnosis
  in_progress = record { reason = Reason.generating; detail = "in progress" }

  abbrev unrecognized : Object → Diagnosis
  unrecognized run = record {
    reason = Reason.status_unrecognized;
    detail =
        k.sprintf "status matches none of succeededWhen/failedWhen/inProgressWhen: %s"
          (Arg.text (summarize_status k run) ∷ []);
  }

  unfoldable pub diagnose : GeneratorSpec → Object → ℤ → Session k → Diagnosis × Session k
  diagnose g run now s =
      let settled = ltb_ℤ unrecognized_grace_period (sub_time now (run_start_time k run s.obj)) in
      if not (g.in_progress_when == "") && settled
      then (let (r, progs) = eval_bool k g.in_progress_when run s.progs in
          (if matched r then in_progress else unrecognized run, record s { progs = progs }))
      else (in_progress, s)

  -- A run that is still going: the progress deadline, then the wait.
  unfoldable pub watch_progress :
      ArtifactClass → Object → Diagnosis → ℤ → Backoff → Session k → Session k × Outcome
  watch_progress class run d now b s =
      let dl = progress_deadline class in
      let kind = Arg.text (k.get_kind run) in
      let name = Arg.text (k.get_name run) in
      if ltb_ℤ (pos 0) dl && ltb_ℤ dl (sub_time now (run_start_time k run s.obj))
      then record_attempt_failure k c Reason.progress_deadline_exceeded
          (k.sprintf "generator %s %q made no terminal progress within %s (%s)"
            (kind ∷ name ∷ Arg.span dl ∷ Arg.text d.detail ∷ []))
          now b (call (Call.delete_run (generator_ref_for k run)) s)
      else requeue (jittered c s.trace (pos (30 * second))) (
          set_status
            (mark_false k ConditionType.ready d.reason
              (k.sprintf "generator %s (attempt %d)"
                (Arg.text d.detail ∷ Arg.num s.obj.status.attempts ∷ []))
              (mark_reconciling k d.reason
                (k.sprintf "generator %s %q: %s" (kind ∷ name ∷ Arg.text d.detail ∷ []))
                (record s.obj.status { state = State.generating })))
            s)

  -- The part of evaluateRun behind failedWhen.
  unfoldable pub evaluate_unfailed :
      ArtifactClass → GeneratorSpec → Object → ℤ → Backoff → Session k → Session k × Outcome
  evaluate_unfailed class g run now b s =
      let (succeeded, progs) = eval_bool k g.succeeded_when run s.progs in
      let s1 = record s { progs = progs } in
      if matched succeeded
      then verify_success class run now b s1
      else (let (d, s2) = diagnose g run now s1 in watch_progress class run d now b s2)

  -- evaluateRun
  unfoldable pub evaluate_run :
      ArtifactClass → GeneratorSpec → Object → ℤ → Backoff → Session k → Session k × Outcome
  evaluate_run class g run now b s =
      let (failed, progs) = eval_bool k g.failed_when run s.progs in
      let s1 = record s { progs = progs } in
      if matched failed
      then record_attempt_failure k c Reason.generator_failed
          (k.sprintf "generator %s %q reported failure"
            (Arg.text (k.get_kind run) ∷ Arg.text (k.get_name run) ∷ []))
          now b s1
      else evaluate_unfailed class g run now b s1
