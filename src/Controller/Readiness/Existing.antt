-- ===== src/Controller/Readiness/Existing.antt =====
-- An object at the key: a foreign one is left alone, an own one makes the Artifact ready.
use artifact_controller.Prelude.{
  refl, sym, subst, String, Bool, true, false, ◌≡◌, arith, none, ◌∷◌, ◌&&◌, not,
}
use artifact_controller.Prelude.Int.{ℤ, pos}
use artifact_controller.Toolkit.{Toolkit, ConditionLaws, Input}
use artifact_controller.Calls.{Call, EventType}
use artifact_controller.Api.Artifact.{observe_only}
use artifact_controller.Api.Conditions.{State}
use artifact_controller.Api.ArtifactClass.{ArtifactClass, drift_policy}
use artifact_controller.Store.{Observation}
use artifact_controller.Controller.Session.{Cluster, Session}
use artifact_controller.Controller.Existing.{
  reconcile_existing, accept_existing, key_conflict, become_ready, drifted, is_regenerate, stamp_of,
  verified_status,
}
use artifact_controller.Controller.Removal.{adoptable}
use artifact_controller.Controller.Reconcile.{dispatch}
use artifact_controller.Controller.Readiness.Conditions.{ready-mark_false, ready-mark_true}
use artifact_controller.Controller.Readiness.Soundness.{is_ready, Verified}

module _ (k : Toolkit) (c : Cluster) where
  -- Regeneration is asked for: the content drifted, the class regenerates, the Artifact is managed.
  abbrev pub regenerates : ArtifactClass → Observation → Session k → Bool
  regenerates class obs s =
      drifted k c obs s.obj.status
      && (is_regenerate (drift_policy class) && not (observe_only s.obj))

module _ {k : Toolkit} (laws : ConditionLaws k) (c : Cluster) where
  -- The Artifact is in the state KeyConflict and not ready; its digest, its run and its counters
  -- are untouched, and nothing was done but to emit one event.
  pub record Conflict (s r : Session k) : Type 0 where
    pub state_conflict : r.obj.status.state ≡ State.key_conflict
    pub not_ready : is_ready r ≡ false
    pub digest_kept : r.obj.status.digest ≡ s.obj.status.digest
    pub run_kept : r.obj.status.generator_ref ≡ s.obj.status.generator_ref
    pub failures_kept : r.obj.status.failed_attempts ≡ s.obj.status.failed_attempts
    pub attempts_kept : r.obj.status.attempts ≡ s.obj.status.attempts
    pub silent :
        (msg : String) × (r.trace ≡ Call.event EventType.warning "KeyConflict" msg ∷ s.trace)

  key_conflict-Conflict :
      (in_ : Input) (stamp : String) (s : Session k) → Conflict s (key_conflict k c in_ stamp s).0
  unfolding key_conflict
  key_conflict-Conflict in_ stamp s = record {
    state_conflict = refl;
    not_ready = ready-mark_false laws _ _ _;
    digest_kept = refl;
    run_kept = refl;
    failures_kept = refl;
    attempts_kept = refl;
    silent = (_, refl);
  }

  dispatch-key_conflict :
      (class : ArtifactClass) (in_ : Input) (now : ℤ) (obs : Observation) (s : Session k)
      → obs.exists ≡ true
      → adoptable (stamp_of k class obs) in_.spec_hash ≡ false
      → dispatch k c class in_ now obs s ≡ key_conflict k c in_ (stamp_of k class obs) s
  unfolding dispatch reconcile_existing
  dispatch-key_conflict class in_ now obs s h f = ground arith

  -- An object whose stamp is there and is not the Artifact's spec hash is neither adopted nor
  -- overwritten: the Artifact is in the state KeyConflict and not ready, its digest, its run and
  -- its counters are as before, and the only call is one warning event.
  pub dispatch-Conflict :
      (class : ArtifactClass) (in_ : Input) (now : ℤ) (obs : Observation) (s : Session k)
      → obs.exists ≡ true
      → adoptable (stamp_of k class obs) in_.spec_hash ≡ false
      → Conflict s (dispatch k c class in_ now obs s).0
  dispatch-Conflict class in_ now obs s h f =
      subst (λ r. Conflict s r.0) (sym (dispatch-key_conflict class in_ now obs s h f))
        (key_conflict-Conflict in_ (stamp_of k class obs) s)

  -- Ready is True, and nothing is left of earlier attempts.
  pub record Settled (r : Session k) : Type 0 where
    pub ready : is_ready r ≡ true
    pub no_failures : r.obj.status.failed_attempts ≡ pos 0
    pub no_run : r.obj.status.generator_ref ≡ none

  accept_existing-Settled :
      (class : ArtifactClass) (obs : Observation) (in_ : Input) (now : ℤ) (s : Session k)
      → obs.exists ≡ true
      → adoptable (stamp_of k class obs) in_.spec_hash ≡ true
      → regenerates k c class obs s ≡ false
      → Settled (accept_existing k c class obs in_ now s).0
        × Verified laws c class in_ now obs (accept_existing k c class obs in_ now s).0
  unfolding accept_existing become_ready verified_status
  accept_existing-Settled class obs in_ now s h f g = grind (arith, ready-mark_true laws)

  -- An object with the Artifact's own stamp, or with none, makes the Artifact ready: Ready is True,
  -- the state is Ready, the digest and the time of verification are recorded, no failures are
  -- counted and no run is in flight. The one exception is drifted content that the class wants
  -- regenerated.
  pub dispatch-Settled :
      (class : ArtifactClass) (in_ : Input) (now : ℤ) (obs : Observation) (s : Session k)
      → obs.exists ≡ true
      → adoptable (stamp_of k class obs) in_.spec_hash ≡ true
      → regenerates k c class obs s ≡ false
      → Settled (dispatch k c class in_ now obs s).0
        × Verified laws c class in_ now obs (dispatch k c class in_ now obs s).0
  unfolding dispatch reconcile_existing
  dispatch-Settled class in_ now obs s h f g =
      grind (arith, accept_existing-Settled class obs in_ now s h f g)
