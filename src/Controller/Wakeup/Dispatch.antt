-- ===== src/Controller/Wakeup/Dispatch.antt =====
-- A reconciliation that has the store's answer comes back, but for a template that does not render.
use artifact_controller.Prelude.{String, Bool, true, ◌≡◌, ◌⊎◌, arith}
use artifact_controller.Prelude.Int.{ℤ}
use artifact_controller.Toolkit.{Toolkit, Input}
use artifact_controller.Api.Conditions.{ConditionType}
use artifact_controller.Api.Artifact.{get_interval}
use artifact_controller.Api.ArtifactClass.{ArtifactClass}
use artifact_controller.Store.{Observation}
use artifact_controller.Controller.Session.{Cluster, Session, set_status}
use artifact_controller.Controller.Missing.{reconcile_missing_observed}
use artifact_controller.Controller.Existing.{
  reconcile_existing, accept_existing, key_conflict, become_ready, rebaseline, record_drift,
}
use artifact_controller.Controller.Reconcile.{dispatch}
use artifact_controller.Controller.Wakeup.Delays.{Jitters, jittered-Positive}
use artifact_controller.Controller.Wakeup.Attempts.{Regular, Wakes}
use artifact_controller.Controller.Wakeup.Missing.{unrenderable, Calm, reconcile_missing-Wakes}

module _ {k : Toolkit} (c : Cluster) (j : Jitters c) where
  become_ready-Wakes :
      (obs : Observation) (in_ : Input) (now : ℤ) (was_ready : Bool) (s : Session k)
      → Regular (get_interval s.obj)
      → Wakes c j (become_ready k c obs in_ now was_ready s)
  unfolding become_ready get_interval
  become_ready-Wakes obs in_ now was_ready s (h, l) = grind (arith, jittered-Positive c j)

  key_conflict-Wakes :
      (in_ : Input) (stamp : String) (s : Session k)
      → Regular (get_interval s.obj)
      → Wakes c j (key_conflict k c in_ stamp s)
  unfolding key_conflict get_interval
  key_conflict-Wakes in_ stamp s (h, l) = grind (arith, jittered-Positive c j)

  missing_observed-Wakes :
      (in_ : Input) (s : Session k)
      → Regular (get_interval s.obj)
      → Wakes c j (reconcile_missing_observed k c in_ s)
  unfolding reconcile_missing_observed get_interval
  missing_observed-Wakes in_ s (h, l) = grind (arith, jittered-Positive c j)

  record_drift-Calm :
      (class cl : ArtifactClass) (key was is : String) (now : ℤ) (s : Session k)
      → Calm c j class now s
      → let s1 = record_drift k c cl key was is s in
        Calm c j class now s1
        × Calm c j class now (set_status (record s1.obj.status { digest = "" }) s1)
        × (s1.obj.status.attempts ≡ s.obj.status.attempts)
  unfolding record_drift get_interval
  record_drift-Calm class cl key was is now s m =
      ground (arith, m.interval, m.backoff, m.grace, m.failed_before, m.succeeded_before)

  rebaseline-interval :
      (obs : Observation) (s : Session k)
      → Regular (get_interval s.obj)
      → Regular (get_interval (rebaseline k c obs s).obj)
  unfolding rebaseline get_interval
  rebaseline-interval obs s h = ground (arith, h)

  accept_existing-Wakes :
      (class : ArtifactClass) (obs : Observation) (in_ : Input) (now : ℤ) (s : Session k)
      → Calm c j class now s
      → Wakes c j (accept_existing k c class obs in_ now s)
        ⊎ (unrenderable k class.generator in_ s.obj.status.attempts ≡ true)
  unfolding accept_existing
  accept_existing-Wakes class obs in_ now s m =
      let s1 = record_drift k c class in_.key s.obj.status.digest obs.digest s in
      let (m1, m2, e) =
        record_drift-Calm class class in_.key s.obj.status.digest obs.digest now s m in
      let was_ready = k.is_true ConditionType.ready s.obj.status.conditions in
      grind (
        arith,
        e,
        become_ready-Wakes obs in_ now was_ready s1 m1.interval,
        become_ready-Wakes obs in_ now was_ready (rebaseline k c obs s)
            (rebaseline-interval obs s m.interval),
        reconcile_missing-Wakes c j class in_ now
            (set_status (record s1.obj.status { digest = "" }) s1) m2,
      )

  -- A reconciliation that has the store's answer ends with an error or asks for a positive delay,
  -- so that it is run again, unless the generator's template does not render. The delays and times
  -- are in range: an interval from 2 ns to 18 years, backoff and grace up to 73 years, and no
  -- recorded time more than 73 years ahead of the clock; the jitter leaves a positive delay of 2 ns
  -- and more.
  pub dispatch-Wakes :
      (class : ArtifactClass) (in_ : Input) (now : ℤ) (obs : Observation) (s : Session k)
      → Calm c j class now s
      → Wakes c j (dispatch k c class in_ now obs s)
        ⊎ (unrenderable k class.generator in_ s.obj.status.attempts ≡ true)
  unfolding dispatch reconcile_existing
  dispatch-Wakes class in_ now obs s m = grind (
    arith,
    accept_existing-Wakes class obs in_ now s m,
    λ (stamp : String). key_conflict-Wakes in_ stamp s m.interval,
    missing_observed-Wakes in_ s m.interval,
    reconcile_missing-Wakes c j class in_ now s m,
  )
