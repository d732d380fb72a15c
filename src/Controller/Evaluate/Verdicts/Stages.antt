-- ===== src/Controller/Evaluate/Verdicts/Stages.antt =====
-- The stages of evaluateRun, each with its verdict.
use artifact_controller.Prelude.{
  String, true, ◌&&◌, ◌≡◌, refl, sym, subst, arith, some, inl, inr, Bool-cases, Option-cases,
  if◌then◌else◌,
}
use artifact_controller.Prelude.Int.{ℤ, pos, ltb_ℤ, sub_time}
use artifact_controller.Api.Conditions.{Reason}
use artifact_controller.Api.Json.{Object}
use artifact_controller.Api.Artifact.{Artifact}
use artifact_controller.Api.ArtifactClass.{
  ArtifactClass, GeneratorSpec, Backoff, grace_period, progress_deadline,
}
use artifact_controller.Toolkit.{Toolkit}
use artifact_controller.Generator.Evaluator.Caching.{IsFaithful, eval_bool-IsFaithful}
use artifact_controller.Controller.Session.{Cluster, Session, call}
use artifact_controller.Calls.{Call}
use artifact_controller.Controller.Run.{run_start_time, generator_ref_for}
use artifact_controller.Controller.Failure.{
  record_attempt_failure, failed_status, exhaust_budget, back_off,
}
use artifact_controller.Controller.Evaluate.{
  Diagnosis, note_success, await_artifact, verify_success, diagnose, watch_progress,
}
use artifact_controller.Controller.Evaluate.Verdicts.{Verdict, charged, first_seen, Judged, Charged}

module _ (k : Toolkit) (c : Cluster) where
  pub record_attempt_failure-Charged :
      (reason : Reason) (msg : String) (now : ℤ) (b : Backoff) (s : Session k)
      → Charged k s (record_attempt_failure k c reason msg now b s).0
  unfolding record_attempt_failure failed_status exhaust_budget back_off
  record_attempt_failure-Charged reason msg now b s = ground arith

  pub Charged-Judged :
      (v : Verdict) (now : ℤ) (s s1 r : Session k)
      → charged v ≡ true
      → s1.obj.status.failed_attempts ≡ s.obj.status.failed_attempts
      → IsFaithful k s1.progs
      → Charged k s1 r
      → Judged k v now s r
  Charged-Judged v now s s1 r t e f h = record {
    run = ground (arith, t, h);
    failures = ground (arith, t, e, h);
    success = ground (arith, t, h);
    faithful = subst (IsFaithful k) (sym h.programs) f;
  }

  note_success-kept :
      (run : Object) (now : ℤ) (s : Session k)
      → ((note_success k c run now s).progs ≡ s.progs)
        × ((note_success k c run now s).obj.status.failed_attempts ≡ s.obj.status.failed_attempts)
        × ((note_success k c run now s).obj.status.generator_ref ≡ s.obj.status.generator_ref)
        × ((note_success k c run now s).obj.status.generator_succeeded_at
            ≡ some (first_seen now s.obj.status.generator_succeeded_at))
  unfolding note_success
  note_success-kept run now s = elim (Option-cases s.obj.status.generator_succeeded_at) [
    | inl e ↦ ground (arith, e)
    | inr (t, e) ↦ ground (arith, e)
  ]

  pub diagnose-kept :
      (g : GeneratorSpec) (run : Object) (now : ℤ) (s : Session k)
      → IsFaithful k s.progs
      → ((diagnose k c g run now s).1.obj ≡ s.obj) × IsFaithful k (diagnose k c g run now s).1.progs
  unfolding diagnose
  diagnose-kept g run now s f =
      grind (arith, f, eval_bool-IsFaithful k g.in_progress_when run s.progs f)

  -- The verdict on a run that succeeded.
  abbrev pub awaited_or_overdue : ArtifactClass → ℤ → Session k → Verdict
  awaited_or_overdue class now s =
      if ltb_ℤ (sub_time now (first_seen now s.obj.status.generator_succeeded_at))
        (grace_period class)
      then Verdict.awaited
      else Verdict.overdue

  await_artifact-Judged :
      (class : ArtifactClass) (run : Object) (now elapsed grace : ℤ) (s : Session k)
      → IsFaithful k s.progs
      → Judged k Verdict.awaited now s
          (await_artifact k c class elapsed grace (note_success k c run now s)).0
  unfolding await_artifact
  await_artifact-Judged class run now elapsed grace s f =
      let (p, a, r, t) = note_success-kept run now s in
      record { run = r; failures = a; success = t; faithful = subst (IsFaithful k) (sym p) f }

  pub verify_success-Judged :
      (class : ArtifactClass) (run : Object) (now : ℤ) (b : Backoff) (s : Session k)
      → IsFaithful k s.progs
      → Judged k (awaited_or_overdue class now s) now s (verify_success k c class run now b s).0
  unfolding verify_success
  verify_success-Judged class run now b s f =
      let (p, a, r, t) = note_success-kept run now s in
      let s1 = note_success k c run now s in
      let elapsed = sub_time now (first_seen now s.obj.status.generator_succeeded_at) in
      elim (Bool-cases (ltb_ℤ elapsed (grace_period class))) [
        | inl y ↦
            let v : awaited_or_overdue class now s ≡ Verdict.awaited = ground (arith, y) in
            let e : (verify_success k c class run now b s).0
                ≡ (await_artifact k c class elapsed (grace_period class) s1).0 =
              ground (arith, y, t) in
            subst (λ o. Judged k o now s (verify_success k c class run now b s).0) (sym v)
              (subst (Judged k Verdict.awaited now s) (sym e)
                (await_artifact-Judged class run now elapsed (grace_period class) s f))
        | inr n ↦
            let v : awaited_or_overdue class now s ≡ Verdict.overdue = ground (arith, n) in
            let e : Charged k s1 (verify_success k c class run now b s).0 =
              grind (arith, n, t, record_attempt_failure-Charged) in
            subst (λ o. Judged k o now s (verify_success k c class run now b s).0) (sym v)
              (Charged-Judged Verdict.overdue now s s1 (verify_success k c class run now b s).0 refl
                a (subst (IsFaithful k) (sym p) f) e)
      ]

  -- The verdict on a run that neither failed nor succeeded.
  abbrev pub stuck_or_going : ArtifactClass → Object → ℤ → Artifact → Verdict
  stuck_or_going class run now obj =
      if ltb_ℤ (pos 0) (progress_deadline class)
        && ltb_ℤ (progress_deadline class) (sub_time now (run_start_time k run obj))
      then Verdict.stuck
      else Verdict.going

  pub watch_progress-Judged :
      (class : ArtifactClass) (run : Object) (d : Diagnosis k c) (now : ℤ) (b : Backoff)
      (s : Session k)
      → IsFaithful k s.progs
      → Judged k
          (stuck_or_going class run now s.obj)
          now
          s
          (watch_progress k c class run d now b s).0
  unfolding watch_progress
  watch_progress-Judged class run d now b s f =
      let wedged =
        ltb_ℤ (pos 0) (progress_deadline class)
        && ltb_ℤ (progress_deadline class) (sub_time now (run_start_time k run s.obj)) in
      let r = (watch_progress k c class run d now b s).0 in
      elim (Bool-cases wedged) [
        | inl y ↦
            let v : stuck_or_going class run now s.obj ≡ Verdict.stuck = ground (arith, y) in
            let e : Charged k (call (Call.delete_run (generator_ref_for k run)) s) r =
              grind (arith, y, record_attempt_failure-Charged) in
            subst (λ o. Judged k o now s r) (sym v)
              (Charged-Judged Verdict.stuck now s
                (call (Call.delete_run (generator_ref_for k run)) s) r refl refl f e)
        | inr n ↦
            let v : stuck_or_going class run now s.obj ≡ Verdict.going = ground (arith, n) in
            let q : r.progs ≡ s.progs = ground (arith, n) in
            subst (λ o. Judged k o now s r) (sym v)
              (record {
                run = ground (arith, n);
                failures = ground (arith, n);
                success = ground (arith, n);
                faithful = subst (IsFaithful k) (sym q) f;
              })
      ]
