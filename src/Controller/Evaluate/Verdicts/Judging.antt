-- ===== src/Controller/Evaluate/Verdicts/Judging.antt =====
-- evaluateRun follows the verdict.
use artifact_controller.Prelude.{◌≡◌, refl, sym, subst, arith, inl, inr, Bool-cases, if◌then◌else◌}
use artifact_controller.Prelude.Int.{ℤ}
use artifact_controller.Api.Json.{Object}
use artifact_controller.Api.ArtifactClass.{ArtifactClass, GeneratorSpec, Backoff}
use artifact_controller.Toolkit.{Toolkit}
use artifact_controller.Generator.Evaluator.{eval_bool}
use artifact_controller.Generator.Evaluator.Caching.{IsFaithful, eval_bool-IsFaithful}
use artifact_controller.Controller.Session.{Cluster, Session}
use artifact_controller.Controller.Evaluate.{
  verify_success, diagnose, watch_progress, evaluate_unfailed, evaluate_run,
}
use artifact_controller.Controller.Evaluate.Verdicts.{Verdict, holds, verdict, Judged, Charged}
use artifact_controller.Controller.Evaluate.Verdicts.Stages.{
  record_attempt_failure-Charged, Charged-Judged, diagnose-kept, awaited_or_overdue,
  verify_success-Judged, stuck_or_going, watch_progress-Judged,
}

module _ (k : Toolkit) (c : Cluster) where
  -- What holds of a session with another cache holds of the session.
  Judged-progs :
      (v : Verdict) (now : ℤ) (s s1 r : Session k)
      → s1.obj ≡ s.obj
      → Judged k v now s1 r
      → Judged k v now s r
  Judged-progs v now s s1 r e h = record {
    run = ground (arith, h, e);
    failures = ground (arith, h, e);
    success = ground (arith, h, e);
    faithful = h.faithful;
  }

  evaluate_unfailed-Judged :
      (class : ArtifactClass) (g : GeneratorSpec) (run : Object) (now : ℤ) (b : Backoff)
      (s : Session k)
      → IsFaithful k s.progs
      → Judged k
          (if holds k g.succeeded_when run
            then awaited_or_overdue k c class now s
            else stuck_or_going k c class run now s.obj)
          now
          s
          (evaluate_unfailed k c class g run now b s).0
  unfolding evaluate_unfailed
  evaluate_unfailed-Judged class g run now b s f =
      let (q, f1) = eval_bool-IsFaithful k g.succeeded_when run s.progs f in
      let s1 = record s { progs = (eval_bool k g.succeeded_when run s.progs).1 } in
      let (o, f2) = diagnose-kept k c g run now s1 f1 in
      let s2 = (diagnose k c g run now s1).1 in
      let r = (evaluate_unfailed k c class g run now b s).0 in
      elim (Bool-cases (holds k g.succeeded_when run)) [
        | inl y ↦
            let e : r ≡ (verify_success k c class run now b s1).0 = grind (arith, y, q) in
            rw y (
              subst (Judged k (awaited_or_overdue k c class now s) now s) (sym e)
                (Judged-progs _ now s s1 _ refl (verify_success-Judged k c class run now b s1 f1)))
        | inr n ↦
            let e : r ≡ (watch_progress k c class run (diagnose k c g run now s1).0 now b s2).0 =
              grind (arith, n, q) in
            rw n (
              subst (Judged k (stuck_or_going k c class run now s.obj) now s) (sym e) (
                Judged-progs _ now s s2 _ o (
                  subst
                    (λ obj.
                      Judged k (stuck_or_going k c class run now obj) now s2
                        (watch_progress k c class run (diagnose k c g run now s1).0 now b s2).0)
                    o
                    (watch_progress-Judged k c class run (diagnose k c g run now s1).0 now b s2
                      f2))))
      ]

  -- An evaluation of a run follows the verdict of the class's expressions, which are compiled anew:
  -- failedWhen comes first, then succeededWhen with the grace period, then the deadline for
  -- progress, and an expression that errors does not hold. A failed, overdue or stuck run is
  -- forgotten and charged to the failure budget; an awaited or going one is kept at no charge. The
  -- time at which success was first seen is recorded once. The cache stays faithful.
  pub evaluate_run-Judged :
      (class : ArtifactClass) (g : GeneratorSpec) (run : Object) (now : ℤ) (b : Backoff)
      (s : Session k)
      → IsFaithful k s.progs
      → Judged k (verdict k class g run now s.obj) now s (evaluate_run k c class g run now b s).0
  unfolding evaluate_run
  evaluate_run-Judged class g run now b s f =
      let (q, f1) = eval_bool-IsFaithful k g.failed_when run s.progs f in
      let s1 = record s { progs = (eval_bool k g.failed_when run s.progs).1 } in
      let r = (evaluate_run k c class g run now b s).0 in
      elim (Bool-cases (holds k g.failed_when run)) [
        | inl y ↦
            let v : verdict k class g run now s.obj ≡ Verdict.failed = ground (arith, y) in
            let e : Charged k s1 r = grind (arith, y, q, record_attempt_failure-Charged k c) in
            subst (λ o. Judged k o now s r) (sym v)
              (Charged-Judged k c Verdict.failed now s s1 r refl refl f1 e)
        | inr n ↦
            let e : r ≡ (evaluate_unfailed k c class g run now b s1).0 = grind (arith, n, q) in
            let v : verdict k class g run now s.obj ≡ (
                if holds k g.succeeded_when run
                then awaited_or_overdue k c class now s
                else stuck_or_going k c class run now s.obj) =
              ground (arith, n) in
            subst (λ o. Judged k o now s r) (sym v)
              (subst (Judged k _ now s) (sym e)
                (Judged-progs _ now s s1 _ refl (evaluate_unfailed-Judged class g run now b s1 f1)))
      ]
