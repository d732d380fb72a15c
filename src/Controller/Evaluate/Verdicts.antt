-- ===== src/Controller/Evaluate/Verdicts.antt =====
-- What evaluateRun makes of a run, against a specification without a cache and without conditions.
pub mod Stages
pub mod Judging
use artifact_controller.Prelude.{
  ◌*◌, String, Bool, true, false, not, ◌&&◌, ◌≡◌, refl, ap, sym, subst, arith, Option, none, some,
  inl, inr, Bool-cases, Option-cases, if◌then◌else◌,
}
use artifact_controller.Prelude.Int.{ℤ, pos, ltb_ℤ, sub_time, inc32}
use artifact_controller.Prelude.Result.{Result, ok, err}
use artifact_controller.Api.Conditions.{Reason}
use artifact_controller.Api.Json.{Object}
use artifact_controller.Api.Artifact.{Artifact, ArtifactStatus, GeneratorReference}
use artifact_controller.Api.ArtifactClass.{
  ArtifactClass, GeneratorSpec, Backoff, grace_period, progress_deadline,
}
use artifact_controller.Toolkit.{Toolkit}
use artifact_controller.Generator.Evaluator.{build, run_program, eval_bool}
use artifact_controller.Generator.Evaluator.Caching.{IsFaithful, eval_bool-IsFaithful}
use artifact_controller.Controller.Session.{Cluster, Session, call}
use artifact_controller.Calls.{Call}
use artifact_controller.Controller.Run.{run_start_time, generator_ref_for}
use artifact_controller.Controller.Failure.{
  record_attempt_failure, failed_status, exhaust_budget, back_off,
}
use artifact_controller.Controller.Evaluate.{
  Diagnosis, note_success, await_artifact, verify_success, diagnose, watch_progress,
  evaluate_unfailed, evaluate_run,
}

-- A run failed; it succeeded, and its artifact is awaited or overdue; it is stuck beyond the
-- deadline for progress; or it is going on.
pub data Verdict : Type 0 where
  failed awaited overdue stuck going : Verdict

-- The verdicts that end an attempt as failed.
abbrev pub charged : Verdict → Bool
charged Verdict.failed = true
charged Verdict.overdue = true
charged Verdict.stuck = true
charged _ = false

-- The first time that success was seen: now, or the recorded time.
abbrev pub first_seen : ℤ → Option ℤ → ℤ
first_seen now none = now
first_seen now (some t) = t

-- When the run was first seen to have succeeded, after the verdict.
abbrev pub success_time : Verdict → ℤ → Option ℤ → Option ℤ
success_time Verdict.awaited now before = some (first_seen now before)
success_time Verdict.going now before = before
success_time _ now before = none

module _ (k : Toolkit) where
  -- Whether an expression holds of a run; one that errors does not.
  abbrev pub holds : String → Object → Bool
  holds expr run = elim (run_program k expr run (build k expr)) [ ok b ↦ b | err e ↦ false ]

  abbrev pub verdict : ArtifactClass → GeneratorSpec → Object → ℤ → Artifact → Verdict
  verdict class g run now obj =
      if holds g.failed_when run
      then Verdict.failed
      else if holds g.succeeded_when run
      then if ltb_ℤ (sub_time now (first_seen now obj.status.generator_succeeded_at))
          (grace_period class)
        then Verdict.awaited
        else Verdict.overdue
      else if ltb_ℤ (pos 0) (progress_deadline class)
          && ltb_ℤ (progress_deadline class) (sub_time now (run_start_time k run obj))
      then Verdict.stuck
      else Verdict.going

  -- What a verdict does to the run and to the failure budget.
  pub record Judged (v : Verdict) (now : ℤ) (s r : Session k) : Type 0 where
    pub run : r.obj.status.generator_ref ≡ (if charged v then none else s.obj.status.generator_ref)
    pub failures :
        r.obj.status.failed_attempts
        ≡ (if charged v then inc32 s.obj.status.failed_attempts else s.obj.status.failed_attempts)
    pub success :
        r.obj.status.generator_succeeded_at ≡ success_time v now s.obj.status.generator_succeeded_at
    pub faithful : IsFaithful k r.progs

  -- An attempt was charged, and the programs are kept.
  pub record Charged (s r : Session k) : Type 0 where
    pub run : r.obj.status.generator_ref ≡ none
    pub failures : r.obj.status.failed_attempts ≡ inc32 s.obj.status.failed_attempts
    pub success : r.obj.status.generator_succeeded_at ≡ none
    pub programs : r.progs ≡ s.progs
