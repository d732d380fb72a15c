-- ===== src/Controller/Budget/Dispatch.antt =====
-- The count of consecutive failures over a whole reconciliation.
use artifact_controller.Prelude.{
  String, true, false, ◌≡◌, ◌⊎◌, inl, inr, refl, subst, ◌∙◌, arith, none, some, is_none,
  if◌then◌else◌,
}
use artifact_controller.Prelude.Int.{ℤ, pos, ◌<ℤ◌, ◌≤ℤ◌, leb_ℤ, inc32, inc32_lem, Fits32, ◌+ℤ◌}
use artifact_controller.Toolkit.{Toolkit, Input}
use artifact_controller.Api.Artifact.{ArtifactStatus, observe_only}
use artifact_controller.Api.Conditions.{State}
use artifact_controller.Api.ArtifactClass.{ArtifactClass, effective_backoff}
use artifact_controller.Store.{Observation}
use artifact_controller.Controller.Session.{Cluster, Session}
use artifact_controller.Controller.Missing.{reconcile_missing_observed}
use artifact_controller.Controller.Existing.{
  reconcile_existing, accept_existing, key_conflict, become_ready, record_drift, verified_status,
}
use artifact_controller.Controller.Reconcile.{dispatch}
use artifact_controller.Controller.Budget.Failures.{failures, Spent, reconcile_missing-failures}

below_max : (a m : ℤ) → Fits32 m → a <ℤ m → a <ℤ pos 2147483647
below_max a m h l = ground (arith, h, l)

succ-le : (a m : ℤ) → a <ℤ m → (a +ℤ pos 1) ≤ℤ m
unfolding ◌+ℤ◌
succ-le a m l = ground (arith, l)

module _ {k : Toolkit} (c : Cluster) where
  record_drift-obj :
      (class : ArtifactClass) (key was is : String) (s : Session k)
      → (failures (record_drift k c class key was is s) ≡ failures s)
        × ((record_drift k c class key was is s).obj.status.generator_ref
            ≡ s.obj.status.generator_ref)
  unfolding record_drift
  record_drift-obj class key was is s = ground arith

  -- The count is as it was, or 0, or the failure of the run in flight is on it.
  abbrev Moves : ArtifactClass → ℤ → ArtifactStatus → Session k → Type 0
  Moves class now st r =
      (failures r ≡ st.failed_attempts) ⊎ (failures r ≡ pos 0) ⊎ Spent c class now st r

  accept_existing-failures :
      (class : ArtifactClass) (obs : Observation) (in_ : Input) (now : ℤ) (s : Session k)
      → Moves class now s.obj.status (accept_existing k c class obs in_ now s).0
  unfolding accept_existing become_ready verified_status
  accept_existing-failures class obs in_ now s =
      grind (arith, record_drift-obj, reconcile_missing-failures)

  key_conflict-failures :
      (in_ : Input) (stamp : String) (s : Session k)
      → failures (key_conflict k c in_ stamp s).0 ≡ failures s
  unfolding key_conflict
  key_conflict-failures in_ stamp s = refl

  missing_observed-failures :
      (in_ : Input) (s : Session k) → failures (reconcile_missing_observed k c in_ s).0 ≡ pos 0
  unfolding reconcile_missing_observed
  missing_observed-failures in_ s = ground arith

  -- The count goes back to 0, which takes the object, or the policy Observe.
  pub record Reset (obs : Observation) (s r : Session k) : Type 0 where
    pub cause : (obs.exists ≡ true) ⊎ (observe_only s.obj ≡ true)
    pub zeroed : failures r ≡ pos 0

  dispatch-Moves :
      (class : ArtifactClass) (in_ : Input) (now : ℤ) (obs : Observation) (s : Session k)
      → let r = (dispatch k c class in_ now obs s).0 in
        (failures r ≡ failures s) ⊎ Reset obs s r ⊎ Spent c class now s.obj.status r
  unfolding dispatch reconcile_existing
  dispatch-Moves class in_ now obs s = grind (
    arith,
    key_conflict-failures,
    accept_existing-failures class obs in_ now s,
    missing_observed-failures in_ s,
    reconcile_missing-failures c class in_ now s,
  )

  -- A failed attempt: the run that was in flight is forgotten, the count stays within the budget
  -- and grows by one, the failure is dated, and the Artifact is degraded where the budget is used
  -- up and goes on generating otherwise.
  pub record Charged (class : ArtifactClass) (now : ℤ) (s r : Session k) : Type 0 where
    pub in_flight : is_none s.obj.status.generator_ref ≡ false
    pub counted : failures r ≡ failures s +ℤ pos 1
    pub bounded : failures r ≤ℤ (effective_backoff class).max_attempts
    pub dated : r.obj.status.last_failure_time ≡ some now
    pub forgotten : r.obj.status.generator_ref ≡ none
    pub parked : r.obj.status.state ≡ (
        if leb_ℤ (effective_backoff class).max_attempts (failures s +ℤ pos 1)
        then State.degraded
        else State.generating)

  charge :
      (class : ArtifactClass) (now : ℤ) (s r : Session k)
      → Fits32 (failures s)
      → Fits32 (effective_backoff class).max_attempts
      → Spent c class now s.obj.status r
      → Charged class now s r
  charge class now s r h m p =
      let l = below_max (failures s) (effective_backoff class).max_attempts m p.within in
      let e : inc32 (failures s) ≡ failures s +ℤ pos 1 = inc32_lem (failures s) h l in
      record {
        in_flight = p.in_flight;
        counted = p.recorded.counted ∙ e;
        bounded =
            rw (p.recorded.counted, e)
              (succ-le (failures s) (effective_backoff class).max_attempts p.within);
        dated = p.recorded.dated;
        forgotten = p.recorded.forgotten;
        parked =
            subst
              (λ n. r.obj.status.state ≡ (
                if leb_ℤ (effective_backoff class).max_attempts n
                then State.degraded
                else State.generating))
              e p.recorded.parked;
      }

  -- A reconciliation that has the store's answer leaves the count of consecutive failures as it
  -- is, sets it to 0 where the object is there or the Artifact is observe-only, or charges one
  -- failed attempt to the budget; with int32 counters it does not overflow.
  pub dispatch-Charged :
      (class : ArtifactClass) (in_ : Input) (now : ℤ) (obs : Observation) (s : Session k)
      → Fits32 (failures s)
      → Fits32 (effective_backoff class).max_attempts
      → let r = (dispatch k c class in_ now obs s).0 in
        (failures r ≡ failures s) ⊎ Reset obs s r ⊎ Charged class now s r
  dispatch-Charged class in_ now obs s h m = elim (dispatch-Moves class in_ now obs s) [
    | inl e ↦ inl e
    | inr (inl e) ↦ inr (inl e)
    | inr (inr p) ↦ inr (inr (charge class now s (dispatch k c class in_ now obs s).0 h m p))
  ]
