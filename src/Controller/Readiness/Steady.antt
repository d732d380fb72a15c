-- ===== src/Controller/Readiness/Steady.antt =====
-- A verified object that does not change: reconciling again is silent.
use artifact_controller.Prelude.{
  true, false, ◌≡◌, refl, sym, ap, subst, ◌∙◌, List, [], ◌∷◌, arith, eq_iff,
}
use artifact_controller.Prelude.Int.{ℤ}
use artifact_controller.Toolkit.{Toolkit, ConditionLaws, Input}
use artifact_controller.Api.ArtifactClass.{ArtifactClass}
use artifact_controller.Store.{Observation}
use artifact_controller.Controller.Session.{Cluster, Session}
use artifact_controller.Controller.Existing.{
  reconcile_existing, accept_existing, become_ready, rebaseline, drifted, stamp_of, verified_status,
}
use artifact_controller.Controller.Removal.{adoptable}
use artifact_controller.Controller.Reconcile.{dispatch}
use artifact_controller.Controller.Readiness.Conditions.{ready-mark_true}
use artifact_controller.Controller.Readiness.Soundness.{is_ready}
use artifact_controller.Controller.Readiness.Existing.{regenerates}

module _ {k : Toolkit} (laws : ConditionLaws k) (c : Cluster) where
  -- Ready, with the digest of the observation recorded.
  pub record Recorded (obs : Observation) (s : Session k) : Type 0 where
    pub ready : is_ready s ≡ true
    pub same : s.obj.status.digest ≡ obs.digest

  accept_existing-Recorded :
      (class : ArtifactClass) (obs : Observation) (in_ : Input) (now : ℤ) (s : Session k)
      → regenerates k c class obs s ≡ false
      → Recorded obs (accept_existing k c class obs in_ now s).0
  unfolding accept_existing become_ready verified_status
  accept_existing-Recorded class obs in_ now s g = grind (arith, ready-mark_true laws, g)

  accept_existing-silent :
      (class : ArtifactClass) (obs : Observation) (in_ : Input) (now : ℤ) (s : Session k)
      → Recorded obs s
      → (accept_existing k c class obs in_ now s).0.trace ≡ s.trace
  unfolding accept_existing become_ready rebaseline drifted
  accept_existing-silent class obs in_ now s h =
      ground (arith, h, eq_iff obs.digest s.obj.status.digest)

  Recorded-regenerates :
      (class : ArtifactClass) (obs : Observation) (s : Session k)
      → Recorded obs s
      → regenerates k c class obs s ≡ false
  unfolding drifted
  Recorded-regenerates class obs s h = ground (arith, h, eq_iff obs.digest s.obj.status.digest)

  pub dispatch-accept_existing :
      (class : ArtifactClass) (in_ : Input) (now : ℤ) (obs : Observation) (s : Session k)
      → obs.exists ≡ true
      → adoptable (stamp_of k class obs) in_.spec_hash ≡ true
      → dispatch k c class in_ now obs s ≡ accept_existing k c class obs in_ now s
  unfolding dispatch reconcile_existing
  dispatch-accept_existing class in_ now obs s h f = ground (arith, h, f)

  -- Reconciliations at the given times, the last one first, that all have the same answer.
  abbrev pub again : ArtifactClass → Input → Observation → List ℤ → Session k → Session k
  again class in_ obs [] s = s
  again class in_ obs (now ∷ earlier) s =
      (dispatch k c class in_ now obs (again class in_ obs earlier s)).0

  again-silent :
      (class : ArtifactClass) (in_ : Input) (obs : Observation) (times : List ℤ) (s : Session k)
      → obs.exists ≡ true
      → adoptable (stamp_of k class obs) in_.spec_hash ≡ true
      → Recorded obs s
      → Recorded obs (again class in_ obs times s) × ((again class in_ obs times s).trace ≡ s.trace)
  again-silent class in_ obs [] s h f q = (q, refl)
  again-silent class in_ obs (now ∷ earlier) s h f q =
      let (r, t) = again-silent class in_ obs earlier s h f q in
      let before = again class in_ obs earlier s in
      let e = dispatch-accept_existing class in_ now obs before h f in
      (
        subst (λ o. Recorded obs o.0) (sym e)
            (accept_existing-Recorded class obs in_ now before
              (Recorded-regenerates class obs before r)),
        ap (λ o. o.0.trace) e ∙ accept_existing-silent class obs in_ now before r ∙ t,
      )

  -- Once an object with the Artifact's own stamp, or with none, has been verified, any number of
  -- reconciliations that find it unchanged keep the Artifact ready and its digest recorded, and make
  -- no call: no event is repeated, also none of a drift that the first one reported.
  pub dispatch-Steady :
      (class : ArtifactClass) (in_ : Input) (now : ℤ) (obs : Observation) (times : List ℤ)
      (s : Session k)
      → obs.exists ≡ true
      → adoptable (stamp_of k class obs) in_.spec_hash ≡ true
      → regenerates k c class obs s ≡ false
      → (let verified = (dispatch k c class in_ now obs s).0 in
          Recorded obs (again class in_ obs times verified)
          × ((again class in_ obs times verified).trace ≡ verified.trace))
  dispatch-Steady class in_ now obs times s h f g =
      let e = dispatch-accept_existing class in_ now obs s h f in
      again-silent class in_ obs times (dispatch k c class in_ now obs s).0 h f
        (subst (λ o. Recorded obs o.0) (sym e) (accept_existing-Recorded class obs in_ now s g))
