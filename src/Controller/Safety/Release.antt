-- ===== src/Controller/Safety/Release.antt =====
-- With the deletion policy Delete an Artifact goes only when its object is dealt with.
use artifact_controller.Prelude.{subst, true, false, ◌≡◌, ◌⊎◌, inl, inr, arith, none, some, ◌∷◌}
use artifact_controller.Prelude.Int.{ℤ}
use artifact_controller.Prelude.Result.{Error, ok, err, is_not_found}
use artifact_controller.Prelude.Result.Bind.{Result-cases}
use artifact_controller.Toolkit.{Toolkit}
use artifact_controller.Calls.{Call, Trace}
use artifact_controller.Api.Artifact.{Artifact, artifact_finalizer}
use artifact_controller.Api.ArtifactClass.{ArtifactClass}
use artifact_controller.Store.{Observation, Driver, driver_for}
use artifact_controller.Controller.Session.{Cluster, Session}
use artifact_controller.Controller.Existing.{stamp_of}
use artifact_controller.Controller.Removal.{
  reconcile_delete, apply_deletion, delete_with, delete_observed, delete_owned, deletion_blocked,
  release, deletes_object, adoptable,
}
use artifact_controller.Controller.Request.{handle}

module _ (k : Toolkit) (c : Cluster) where
  -- The driver found nothing at the key, or a foreign object, or it deleted the object.
  pub record Dealt (class : ArtifactClass) (driver : Driver) (tr : Trace) (obj : Artifact)
      : Type 0 where
    pub obs : Observation
    pub observed : driver.observe tr obj.status.key ≡ ok obs
    pub cleared :
        (obs.exists ≡ false)
        ⊎ (adoptable (stamp_of k class obs) obj.status.spec_hash ≡ false)
        ⊎ (driver.delete (Call.observe obj.status.key ∷ tr) obj.status.key ≡ none)

  -- The class is gone, so that nobody knows the store, or its driver has dealt with the object.
  pub record DealtByClass (s : Session k) : Type 0 where
    pub class : ArtifactClass
    pub got : c.get_class s.trace s.obj.spec.class_ref ≡ ok class
    pub driver : Driver
    pub built :
        driver_for k c.registry (Call.get_class s.obj.spec.class_ref ∷ s.trace) class ≡ ok driver
    pub dealt :
        Dealt class driver
          (Call.build_driver class.store.driver ∷ Call.get_class s.obj.spec.class_ref ∷ s.trace)
          s.obj

  pub record Orphaned (s : Session k) : Type 0 where
    pub failure : Error
    pub refused : c.get_class s.trace s.obj.spec.class_ref ≡ err failure
    pub gone : is_not_found failure.kind ≡ true

  delete_observed-cleared :
      (class : ArtifactClass) (driver : Driver) (obs : Observation) (s : Session k)
      → (delete_observed k c class driver s.obj.status.key obs s).1.error ≡ none
      → (obs.exists ≡ false)
        ⊎ (adoptable (stamp_of k class obs) s.obj.status.spec_hash ≡ false)
        ⊎ (driver.delete s.trace s.obj.status.key ≡ none)
  unfolding delete_observed delete_owned deletion_blocked release
  delete_observed-cleared class driver obs s h = ground arith

  delete_with-Dealt :
      (class : ArtifactClass) (driver : Driver) (s : Session k)
      → (delete_with k c class (ok driver) s).1.error ≡ none
      → Dealt class driver s.trace s.obj
  unfolding delete_with
  delete_with-Dealt class driver s h =
      elim (Result-cases (driver.observe s.trace s.obj.status.key)) [
        | inl (obs, e) ↦ record {
          obs = obs;
          observed = e;
          cleared = grind (
            arith,
            delete_observed-cleared class driver obs
                (record s { trace = Call.observe s.obj.status.key ∷ s.trace }),
          );
        }
        | inr (x, e) ↦ ground arith
      ]

  abbrev with_class_call : Session k → Session k
  with_class_call s = record s { trace = Call.get_class s.obj.spec.class_ref ∷ s.trace }

  no_driver :
      (class : ArtifactClass) (x : Error) (s : Session k)
      → driver_for k c.registry (with_class_call s).trace class ≡ err x
      → (apply_deletion k c (ok class) (with_class_call s)).1.error ≡ none
      → DealtByClass s
  unfolding apply_deletion delete_with
  no_driver class x s e h = ground arith

  apply_deletion-Dealt :
      (class : ArtifactClass) (s : Session k)
      → c.get_class s.trace s.obj.spec.class_ref ≡ ok class
      → (apply_deletion k c (ok class) (with_class_call s)).1.error ≡ none
      → DealtByClass s
  unfolding apply_deletion
  apply_deletion-Dealt class s g h =
      elim (Result-cases (driver_for k c.registry (with_class_call s).trace class)) [
        | inl (driver, e) ↦ record {
          class = class;
          got = g;
          driver = driver;
          built = e;
          dealt =
              delete_with-Dealt class driver
                (record s {
                  trace =
                      Call.build_driver class.store.driver
                      ∷ Call.get_class s.obj.spec.class_ref
                      ∷ s.trace;
                })
                (subst
                  (λ r.
                    (delete_with k c class r (record s {
                      trace =
                          Call.build_driver class.store.driver
                          ∷ Call.get_class s.obj.spec.class_ref
                          ∷ s.trace;
                    })).1.error
                    ≡ none)
                  e h);
        }
        | inr (x, e) ↦ no_driver class x s e h
      ]

  apply_deletion-Orphaned :
      (failure : Error) (s : Session k)
      → c.get_class s.trace s.obj.spec.class_ref ≡ err failure
      → (apply_deletion k c (err failure) (with_class_call s)).1.error ≡ none
      → Orphaned s
  unfolding apply_deletion
  apply_deletion-Orphaned failure s g h = record {
    failure = failure;
    refused = g;
    gone = ground arith;
  }

  handle-apply_deletion :
      (s : Session k) (t : ℤ)
      → s.obj.deletion_timestamp ≡ some t
      → k.contains_finalizer s.obj.finalizers artifact_finalizer ≡ true
      → deletes_object k c s.obj ≡ true
      → handle k c s
        ≡ apply_deletion k c (c.get_class s.trace s.obj.spec.class_ref) (with_class_call s)
  unfolding handle reconcile_delete
  handle-apply_deletion s t e f d = ground arith

  -- A request for an Artifact that is being deleted under the policy Delete, that has the finalizer
  -- and a key in its status and is not observe-only, ends without an error only if the class is gone, or the class's
  -- driver found nothing at the key, or found a foreign object, or deleted the object.
  pub handle-Dealt :
      (s : Session k) (t : ℤ)
      → s.obj.deletion_timestamp ≡ some t
      → k.contains_finalizer s.obj.finalizers artifact_finalizer ≡ true
      → deletes_object k c s.obj ≡ true
      → (handle k c s).1.error ≡ none
      → Orphaned s ⊎ DealtByClass s
  handle-Dealt s t e f d h =
      let h' = subst (λ r. r.1.error ≡ none) (handle-apply_deletion s t e f d) h in
      elim (Result-cases (c.get_class s.trace s.obj.spec.class_ref)) [
        | inl (class, g) ↦ inr (
            apply_deletion-Dealt class s g
              (subst (λ r. (apply_deletion k c r (with_class_call s)).1.error ≡ none) g h'))
        | inr (x, g) ↦ inl (
            apply_deletion-Orphaned x s g
              (subst (λ r. (apply_deletion k c r (with_class_call s)).1.error ≡ none) g h'))
      ]
