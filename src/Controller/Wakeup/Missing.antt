-- ===== src/Controller/Wakeup/Missing.antt =====
-- An absent object: the reconciliation comes back, but for a template that does not render.
use artifact_controller.Prelude.{Bool, true, false, ◌≡◌, ◌⊎◌, inr, refl, arith, Option, none, some}
use artifact_controller.Prelude.Int.{ℤ, inc32, mul64, ◌<ℤ◌}
use artifact_controller.Prelude.Result.{Result, ok, err}
use artifact_controller.Toolkit.{Toolkit, Input}
use artifact_controller.Api.Json.{Object}
use artifact_controller.Api.Artifact.{ArtifactStatus, get_interval}
use artifact_controller.Api.ArtifactClass.{
  ArtifactClass, GeneratorSpec, Backoff, effective_backoff, grace_period,
}
use artifact_controller.Generator.Render.{render_template}
use artifact_controller.Controller.Session.{Cluster, Session}
use artifact_controller.Controller.Timing.{backoff_delay}
use artifact_controller.Controller.Run.{delete_abandoned_run, ensure_generator_watch}
use artifact_controller.Controller.Create.{create_run}
use artifact_controller.Controller.Missing.{
  reconcile_missing, note_absence, without_generator, drive_generator, budget_exhausted,
  start_attempt, backing_off, next_attempt,
}
use artifact_controller.Controller.Wakeup.Delays.{
  Jitters, jittered-Positive, ten_intervals, InRange, backoff_delay-InRange, wait_for_next,
}
use artifact_controller.Controller.Wakeup.Attempts.{
  Regular, CalmBackoff, NotAhead, Wakes, submit_run-Wakes, answer_in_flight-Wakes,
}

abbrev failed {ℓ} : {V : Type ℓ} → Result V → Bool
failed (ok v) = false
failed (err e) = true

module _ (k : Toolkit) where
  -- The generator's template does not render for the next attempt.
  abbrev pub unrenderable : Option GeneratorSpec → Input → ℤ → Bool
  unrenderable none in_ attempts = false
  unrenderable (some g) in_ attempts =
      failed (render_template k g.template (record in_ { attempt = inc32 attempts }))

module _ {k : Toolkit} (c : Cluster) (j : Jitters c) where
  -- The delays and the times are in the ranges in which the code computes with them.
  pub record Calm (class : ArtifactClass) (now : ℤ) (s : Session k) : Type 0 where
    pub interval : Regular (get_interval s.obj)
    pub backoff : CalmBackoff (effective_backoff class)
    pub grace : InRange (grace_period class)
    pub failed_before : NotAhead now s.obj.status.last_failure_time
    pub succeeded_before : NotAhead now s.obj.status.generator_succeeded_at

  create_run-Wakes :
      (g : GeneratorSpec) (in_ : Input) (s : Session k)
      → Wakes c j (create_run k c g in_ s)
        ⊎ (unrenderable k (some g) in_ s.obj.status.attempts ≡ true)
  unfolding create_run ensure_generator_watch
  create_run-Wakes g in_ s = grind (arith, submit_run-Wakes c j)

  next_attempt-cases :
      (b : Backoff) (st : ArtifactStatus) (now next : ℤ) (s : Session k)
      → CalmBackoff b
      → NotAhead now st.last_failure_time
      → next_attempt k c b st ≡ some next
      → now <ℤ next
      → Wakes c j (backing_off k c next now s)
  unfolding next_attempt backing_off
  next_attempt-cases b st now next s (i, m) n e l = grind (
    arith,
    λ (lf : ℤ).
        wait_for_next lf (backoff_delay st.failed_attempts b.initial b.max) now
          (backoff_delay-InRange st.failed_attempts b.initial b.max i m),
  )

  start_attempt-Wakes :
      (g : GeneratorSpec) (in_ : Input) (b : Backoff) (now : ℤ) (s : Session k) (next : Option ℤ)
      → CalmBackoff b
      → NotAhead now s.obj.status.last_failure_time
      → next_attempt k c b s.obj.status ≡ next
      → Wakes c j (start_attempt k c g in_ now next s)
        ⊎ (unrenderable k (some g) in_ s.obj.status.attempts ≡ true)
  unfolding start_attempt
  start_attempt-Wakes g in_ b now s none m n e = create_run-Wakes g in_ s
  start_attempt-Wakes g in_ b now s (some next) m n e =
      ground (arith, create_run-Wakes g in_ s, next_attempt-cases b s.obj.status now next s m n e)

  budget_exhausted-Wakes :
      (b : Backoff) (s : Session k)
      → Regular (get_interval s.obj)
      → Wakes c j (budget_exhausted k c b s)
  unfolding budget_exhausted
  budget_exhausted-Wakes b s (h, l) = inr (
      jittered-Positive c j _ (mul64 10 (get_interval s.obj))
        (ten_intervals (get_interval s.obj) h l))

  drive_generator-Wakes :
      (class : ArtifactClass) (g : GeneratorSpec) (in_ : Input) (now : ℤ) (s : Session k)
      → Calm class now s
      → Wakes c j (drive_generator k c class g in_ now s)
        ⊎ (unrenderable k (some g) in_ s.obj.status.attempts ≡ true)
  unfolding drive_generator get_interval
  drive_generator-Wakes class g in_ now s m =
      let b = effective_backoff class in
      grind (
        arith,
        budget_exhausted-Wakes b s m.interval,
        start_attempt-Wakes g in_ b now s (next_attempt k c b s.obj.status) m.backoff
            m.failed_before refl,
        λ (r : Result Object) (s' : Session k). answer_in_flight-Wakes c j class g r now b s',
        m.interval,
        m.backoff,
        m.grace,
        m.succeeded_before,
      )

  without_generator-Wakes :
      (class : ArtifactClass) (in_ : Input) (s : Session k)
      → Regular (get_interval s.obj)
      → Wakes c j (without_generator k c class in_ s)
  unfolding without_generator delete_abandoned_run get_interval
  without_generator-Wakes class in_ s (h, l) = grind (arith, jittered-Positive c j)

  note_absence-Calm :
      (class : ArtifactClass) (in_ : Input) (now : ℤ) (s : Session k)
      → Calm class now s
      → Calm class now (note_absence k c in_ s)
        × ((note_absence k c in_ s).obj.status.attempts ≡ s.obj.status.attempts)
  unfolding note_absence get_interval
  note_absence-Calm class in_ now s m =
      ground (arith, m.interval, m.backoff, m.grace, m.failed_before, m.succeeded_before)

  pub reconcile_missing-Wakes :
      (class : ArtifactClass) (in_ : Input) (now : ℤ) (s : Session k)
      → Calm class now s
      → Wakes c j (reconcile_missing k c class in_ now s)
        ⊎ (unrenderable k class.generator in_ s.obj.status.attempts ≡ true)
  unfolding reconcile_missing
  reconcile_missing-Wakes class in_ now s m =
      let (m1, e) = note_absence-Calm class in_ now s m in
      let s1 = note_absence k c in_ s in
      grind (
        arith,
        without_generator-Wakes class in_ s1 m1.interval,
        λ (g : GeneratorSpec). drive_generator-Wakes class g in_ now s1 m1,
        e,
      )
