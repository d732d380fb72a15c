-- ===== src/Controller/Wakeup/Attempts.antt =====
-- The generator side of a reconciliation always comes back.
use artifact_controller.Prelude.{
  String, false, ◌≡◌, ◌⊎◌, inr, arith, Option, none, some, is_none, subst, sym,
}
use artifact_controller.Prelude.Int.{ℤ, pos, sub_time, mul64, ◌≤ℤ◌, ◌<ℤ◌, ◌+ℤ◌}
use artifact_controller.Prelude.Result.{Result, ok, err}
use artifact_controller.Toolkit.{Toolkit, Input}
use artifact_controller.Api.Json.{Object}
use artifact_controller.Api.Artifact.{ArtifactStatus, get_interval}
use artifact_controller.Api.Conditions.{Reason, reason_text}
use artifact_controller.Calls.{EventType}
use artifact_controller.Api.ArtifactClass.{ArtifactClass, GeneratorSpec, Backoff, grace_period}
use artifact_controller.Controller.Session.{Cluster, Session, Outcome, emit, set_status}
use artifact_controller.Controller.Failure.{
  record_attempt_failure, failed_status, exhaust_budget, back_off,
}
use artifact_controller.Controller.Evaluate.{
  evaluate_run, evaluate_unfailed, verify_success, note_success, await_artifact, diagnose,
  watch_progress, Diagnosis,
}
use artifact_controller.Controller.Create.{submit_run, adopt, create_refused, created}
use artifact_controller.Controller.Missing.{answer_in_flight}
use artifact_controller.Controller.Wakeup.Delays.{
  far, Jitters, jittered-Positive, ten_intervals, InRange, backoff_delay-InRange, wait_for_artifact,
}

-- An interval between 2 ns and 18 years.
abbrev pub Regular : ℤ → Type 0
Regular i = (pos 1 <ℤ i) × (i ≤ℤ pos 576460752303423488)

abbrev pub CalmBackoff : Backoff → Type 0
CalmBackoff b = InRange b.initial × InRange b.max

-- A time that is not 73 years ahead of the clock, where there is one.
abbrev pub NotAhead : ℤ → Option ℤ → Type 0
NotAhead now none = Unit
NotAhead now (some t) = t ≤ℤ (now +ℤ pos far)

module _ {k : Toolkit} (c : Cluster) (j : Jitters c) where
  -- There is an error, or a positive delay: in both cases the request is run again.
  abbrev pub Wakes : Session k × Outcome → Type 0
  Wakes r = (is_none r.1.error ≡ false) ⊎ (pos 0 <ℤ r.1.requeue_after)

  exhaust_budget-Wakes :
      (msg : String) (b : Backoff) (st : ArtifactStatus) (s : Session k)
      → Regular (get_interval s.obj)
      → Wakes (exhaust_budget k c msg b st s)
  unfolding exhaust_budget
  exhaust_budget-Wakes msg b st s (h, l) = inr (
      jittered-Positive c j _ (mul64 10 (get_interval s.obj))
        (ten_intervals (get_interval s.obj) h l))

  back_off-Wakes :
      (r : Reason) (msg : String) (b : Backoff) (st : ArtifactStatus) (s : Session k)
      → CalmBackoff b
      → Wakes (back_off k c r msg b st s)
  unfolding back_off
  back_off-Wakes r msg b st s (i, m) =
      inr (backoff_delay-InRange st.failed_attempts b.initial b.max i m).0

  record_attempt_failure-Wakes :
      (r : Reason) (msg : String) (now : ℤ) (b : Backoff) (s : Session k)
      → Regular (get_interval s.obj)
      → CalmBackoff b
      → Wakes (record_attempt_failure k c r msg now b s)
  unfolding record_attempt_failure get_interval
  record_attempt_failure-Wakes r msg now b s h m =
      let st = failed_status k c r msg now s.obj.status in
      let s1 = emit EventType.warning (reason_text r) msg (set_status st s) in
      ground (arith, exhaust_budget-Wakes msg b st s1 h, back_off-Wakes r msg b st s1 m)

  watch_progress-Wakes :
      (class : ArtifactClass) (run : Object) (d : Diagnosis k c) (now : ℤ) (b : Backoff)
      (s : Session k)
      → Regular (get_interval s.obj)
      → CalmBackoff b
      → Wakes (watch_progress k c class run d now b s)
  unfolding watch_progress
  watch_progress-Wakes class run d now b s h m =
      grind (arith, record_attempt_failure-Wakes, jittered-Positive c j)

  pub submit_run-Wakes :
      (in_ : Input) (run : Object) (s : Session k) → Wakes (submit_run k c in_ run s)
  unfolding submit_run adopt create_refused created
  submit_run-Wakes in_ run s = grind (arith, jittered-Positive c j)

  await_artifact-Wakes :
      (class : ArtifactClass) (at now grace : ℤ) (s : Session k)
      → InRange grace
      → at ≤ℤ (now +ℤ pos far)
      → sub_time now at <ℤ grace
      → Wakes (await_artifact k c class (sub_time now at) grace s)
  unfolding await_artifact
  await_artifact-Wakes class at now grace s g l t = inr (wait_for_artifact grace at now g l t)

  time_of_success : ℤ → Session k → ℤ
  time_of_success now s = elim s.obj.status.generator_succeeded_at [ none ↦ now | some t ↦ t ]

  note_success-time :
      (run : Object) (now : ℤ) (s : Session k)
      → NotAhead now s.obj.status.generator_succeeded_at
      → (time_of_success now (note_success k c run now s) ≤ℤ (now +ℤ pos far))
        × (get_interval (note_success k c run now s).obj ≡ get_interval s.obj)
  unfolding note_success get_interval time_of_success ◌+ℤ◌
  note_success-time run now s h = ground (arith, h)

  verify_success-Wakes :
      (class : ArtifactClass) (run : Object) (now : ℤ) (b : Backoff) (s : Session k)
      → Regular (get_interval s.obj)
      → CalmBackoff b
      → InRange (grace_period class)
      → NotAhead now s.obj.status.generator_succeeded_at
      → Wakes (verify_success k c class run now b s)
  unfolding verify_success time_of_success
  verify_success-Wakes class run now b s h m g n =
      let s1 = note_success k c run now s in
      let (l, e) = note_success-time run now s n in
      let h1 : Regular (get_interval s1.obj) = subst Regular (sym e) h in
      grind (
        arith,
        await_artifact-Wakes class (time_of_success now s1) now (grace_period class) s1 g l,
        λ (msg : String).
            record_attempt_failure-Wakes Reason.succeeded_without_artifact msg now b s1 h1 m,
      )

  evaluate_unfailed-Wakes :
      (class : ArtifactClass) (g : GeneratorSpec) (run : Object) (now : ℤ) (b : Backoff)
      (s : Session k)
      → Regular (get_interval s.obj)
      → CalmBackoff b
      → InRange (grace_period class)
      → NotAhead now s.obj.status.generator_succeeded_at
      → Wakes (evaluate_unfailed k c class g run now b s)
  unfolding evaluate_unfailed diagnose get_interval
  evaluate_unfailed-Wakes class g run now b s h m gr n =
      grind (arith, verify_success-Wakes, watch_progress-Wakes)

  evaluate_run-Wakes :
      (class : ArtifactClass) (g : GeneratorSpec) (run : Object) (now : ℤ) (b : Backoff)
      (s : Session k)
      → Regular (get_interval s.obj)
      → CalmBackoff b
      → InRange (grace_period class)
      → NotAhead now s.obj.status.generator_succeeded_at
      → Wakes (evaluate_run k c class g run now b s)
  unfolding evaluate_run get_interval
  evaluate_run-Wakes class g run now b s h m gr n =
      grind (arith, record_attempt_failure-Wakes, evaluate_unfailed-Wakes)

  pub answer_in_flight-Wakes :
      (class : ArtifactClass) (g : GeneratorSpec) (r : Result Object) (now : ℤ) (b : Backoff)
      (s : Session k)
      → Regular (get_interval s.obj)
      → CalmBackoff b
      → InRange (grace_period class)
      → NotAhead now s.obj.status.generator_succeeded_at
      → Wakes (answer_in_flight k c class g r now b s)
  unfolding answer_in_flight
  answer_in_flight-Wakes class g (ok run) now b s h m gr n =
      evaluate_run-Wakes class g run now b s h m gr n
  answer_in_flight-Wakes class g (err e) now b s h m gr n = ground arith
