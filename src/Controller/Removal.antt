-- ===== src/Controller/Removal.antt =====
-- reconcileExpired and reconcileDelete of artifact_controller.go: objects taken out of the store.
use artifact_controller.Prelude.{
  String, Bool, not, ◌&&◌, ◌||◌, Option, none, some, [], ◌∷◌, ◌==◌, if◌then◌else◌,
}
use artifact_controller.Prelude.Int.{ℤ, pos, ltb_ℤ, add64, sub64, sub_time, second, minute}
use artifact_controller.Prelude.Result.{Error, Result, ok, err, is_not_found}
use artifact_controller.Api.Conditions.{ConditionType, Reason, State}
use artifact_controller.Api.Artifact.{Artifact, observe_only, is_delete, artifact_finalizer}
use artifact_controller.Api.ArtifactClass.{ArtifactClass}
use artifact_controller.Toolkit.{Toolkit, Arg}
use artifact_controller.Calls.{Call, EventType}
use artifact_controller.Store.{Observation, Driver, driver_for}
use artifact_controller.Controller.Session.{
  Cluster, Session, Outcome, requeue, done, fail, call, emit, set_status, mark_false,
  drop_condition,
}
use artifact_controller.Controller.Timing.{jittered}
use artifact_controller.Controller.Existing.{stamp_of}

-- An object may be deleted if its stamp is ours or missing.
abbrev pub adoptable : String → String → Bool
adoptable stamp spec_hash = stamp == "" || stamp == spec_hash

module _ (k : Toolkit) (c : Cluster) where
  -- Ready is False while the store is not to be reached; the next look is in a jittered minute.
  abbrev store_unavailable : String → Session k → Session k × Outcome
  store_unavailable msg s =
      requeue (jittered c s.trace (pos minute))
        (set_status (mark_false k ConditionType.ready Reason.store_unavailable msg s.obj.status) s)

  unfoldable pub expiry_delay : Option ℤ → ℤ → ℤ
  expiry_delay none age = pos 0
  expiry_delay (some ttl) age =
      if ltb_ℤ (pos 0) ttl
      then (let remaining = sub64 ttl age in
          if ltb_ℤ (pos 0) remaining then add64 remaining (pos second) else pos second)
      else pos 0

  -- The Artifact is parked as Expired; only a pending ttl wakes it again.
  unfoldable pub park_expired : ℤ → ℤ → Session k → Session k × Outcome
  unfolding expiry_delay
  park_expired delete_after now s =
      let st = drop_condition k ConditionType.stalled (
        drop_condition k ConditionType.reconciling (record s.obj.status {
          state = State.expired;
          digest = "";
          generator_ref = none;
          generator_succeeded_at = none;
        })) in
      let st1 =
        mark_false k ConditionType.artifact_in_store Reason.expired
          "deleteAfter reached; artifact deleted from store" st in
      let st2 =
        mark_false k ConditionType.ready Reason.expired
          (k.sprintf "deleteAfter %s reached; artifact is no longer reconciled"
            (Arg.span delete_after ∷ []))
          st1 in
      requeue (expiry_delay s.obj.spec.ttl (sub_time now s.obj.creation_timestamp))
        (set_status st2 s)

  unfoldable pub delete_expired : Driver → String → ℤ → ℤ → Session k → Session k × Outcome
  delete_expired driver key delete_after now s =
      let s1 = call (Call.delete_object key) s in
      elim (driver.delete s.trace key) [
        | some e ↦ store_unavailable (k.sprintf "deleteAfter cleanup: %s" (Arg.text e.text ∷ [])) s1
        | none ↦ park_expired delete_after now (
            emit EventType.normal "ArtifactDeleted"
              (k.sprintf "deleteAfter reached; deleted artifact at %q" (Arg.text key ∷ [])) s1)
      ]

  unfoldable pub expire_observed :
      ArtifactClass
      → Driver
      → String
      → String
      → ℤ
      → ℤ
      → Observation
      → Session k
      → Session k × Outcome
  expire_observed class driver key spec_hash delete_after now obs s =
      let stamp = stamp_of k class obs in
      if not obs.exists
      then park_expired delete_after now s
      else if adoptable stamp spec_hash
      then delete_expired driver key delete_after now s
      else park_expired delete_after now (
          emit EventType.warning "KeyConflict"
            (k.sprintf "deleteAfter reached but object at %q is stamped %s; leaving it in place"
              (Arg.text key ∷ Arg.text stamp ∷ []))
            s)

  -- reconcileExpired
  unfoldable pub reconcile_expired :
      ArtifactClass → Driver → String → String → ℤ → ℤ → Session k → Session k × Outcome
  reconcile_expired class driver key spec_hash delete_after now s =
      let s1 = call (Call.observe key) s in
      elim (driver.observe s.trace key) [
        | err e ↦ store_unavailable (k.sprintf "%s" (Arg.text e.text ∷ [])) s1
        | ok obs ↦ expire_observed class driver key spec_hash delete_after now obs s1
      ]

  -- controllerutil.RemoveFinalizer and the end of reconcileDelete
  unfoldable pub release : Session k → Session k × Outcome
  release s = done (record s {
    obj = record s.obj { finalizers = k.remove_finalizer s.obj.finalizers artifact_finalizer };
  })

  unfoldable pub deletion_blocked : String → Error → Session k → Session k × Outcome
  deletion_blocked key e s =
      let args = Arg.text key ∷ Arg.text e.text ∷ [] in
      fail e (
        emit EventType.warning "DeletionBlocked" (k.sprintf "delete artifact at %q: %s" args) (
          set_status
            (mark_false k ConditionType.ready Reason.store_delete_failed
              (k.sprintf "deletionPolicy Delete is blocked: %s" (Arg.text e.text ∷ []))
              (mark_false k ConditionType.deleting Reason.store_delete_failed
                (k.sprintf "delete artifact at %q: %s" args)
                (record s.obj.status { state = State.deleting })))
            s))

  unfoldable pub delete_owned : Driver → String → Session k → Session k × Outcome
  delete_owned driver key s =
      let s1 = call (Call.delete_object key) s in
      elim (driver.delete s.trace key) [
        | some e ↦ deletion_blocked key e s1
        | none ↦ release (
            emit EventType.normal "ArtifactDeleted"
              (k.sprintf "deleted artifact at %q per deletionPolicy" (Arg.text key ∷ [])) s1)
      ]

  unfoldable pub delete_observed :
      ArtifactClass → Driver → String → Observation → Session k → Session k × Outcome
  delete_observed class driver key obs s =
      let stamp = stamp_of k class obs in
      if not obs.exists
      then release s
      else if adoptable stamp s.obj.status.spec_hash
      then delete_owned driver key s
      else release (
          emit EventType.warning "KeyConflict"
            (k.sprintf "object at %q is stamped %s; leaving it in place"
              (Arg.text key ∷ Arg.text stamp ∷ []))
            s)

  unfoldable pub delete_with : ArtifactClass → Result Driver → Session k → Session k × Outcome
  delete_with class (err e) s = fail e s
  delete_with class (ok driver) s =
      let key = s.obj.status.key in
      let s1 = call (Call.observe key) s in
      elim (driver.observe s.trace key) [
        | err e ↦ fail e s1
        | ok obs ↦ delete_observed class driver key obs s1
      ]

  -- The deletion policy Delete, with the answer for the class.
  unfoldable pub apply_deletion : Result ArtifactClass → Session k → Session k × Outcome
  apply_deletion (err e) s =
      if is_not_found e.kind
      then release (
          emit EventType.warning "OrphanedArtifact"
            (k.sprintf
              "deletionPolicy is Delete but ArtifactClass %q is gone; store object at %q is orphaned"
              (Arg.text s.obj.spec.class_ref ∷ Arg.text s.obj.status.key ∷ []))
            s)
      else fail e s
  apply_deletion (ok class) s =
      delete_with class (driver_for k c.registry s.trace class)
        (call (Call.build_driver class.store.driver) s)

  -- The store object goes with the Artifact: never for a sensor.
  abbrev pub deletes_object : Artifact → Bool
  deletes_object obj =
      is_delete obj.spec.deletion_policy && (not (obj.status.key == "") && not (observe_only obj))

  -- reconcileDelete
  unfoldable pub reconcile_delete : Session k → Session k × Outcome
  reconcile_delete s =
      if not (k.contains_finalizer s.obj.finalizers artifact_finalizer)
      then done s
      else if deletes_object s.obj
      then apply_deletion (c.get_class s.trace s.obj.spec.class_ref)
          (call (Call.get_class s.obj.spec.class_ref) s)
      else release s
