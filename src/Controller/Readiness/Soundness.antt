-- ===== src/Controller/Readiness/Soundness.antt =====
-- Ready is True after a reconciliation only on evidence.
use artifact_controller.Prelude.{
  String, Bool, true, false, ◌≡◌, ◌≢◌, ◌⊎◌, inl, arith, Option, none, some,
}
use artifact_controller.Prelude.Int.{ℤ, pos, second}
use artifact_controller.Prelude.Result.{Error, Result, ok, err}
use artifact_controller.Toolkit.{Toolkit, ConditionLaws, Input, GroupVersionKind}
use artifact_controller.Api.Json.{Object}
use artifact_controller.Api.Conditions.{ConditionType, Reason, State, same_type}
use artifact_controller.Api.ArtifactClass.{ArtifactClass, GeneratorSpec, Backoff}
use artifact_controller.Controller.Session.{Cluster, Session, Outcome}
use artifact_controller.Controller.Failure.{
  record_attempt_failure, failed_status, exhaust_budget, back_off,
}
use artifact_controller.Controller.Evaluate.{
  evaluate_run, evaluate_unfailed, verify_success, note_success, await_artifact, diagnose,
  watch_progress,
}
use artifact_controller.Controller.Readiness.Conditions.{ready-mark_false, ready-mark-other}
use artifact_controller.Store.{Observation}
use artifact_controller.Controller.Run.{delete_abandoned_run, ensure_generator_watch}
use artifact_controller.Controller.Create.{create_run, submit_run, adopt, create_refused, created}
use artifact_controller.Controller.Missing.{
  reconcile_missing, note_absence, without_generator, drive_generator, budget_exhausted,
  answer_in_flight, start_attempt, backing_off, reconcile_missing_observed,
}
use artifact_controller.Controller.Existing.{
  reconcile_existing, accept_existing, key_conflict, become_ready, record_drift, stamp_of,
  verified_status,
}
use artifact_controller.Controller.Removal.{adoptable}
use artifact_controller.Controller.Reconcile.{dispatch}

module _ {k : Toolkit} where
  abbrev pub is_ready : Session k → Bool
  is_ready s = k.is_true ConditionType.ready s.obj.status.conditions

  -- Ready is False, or it is as before and the controller looks again after a second or at the
  -- error's backoff.
  abbrev pub Unproven : Bool → Session k × Outcome → Type 0
  Unproven before r =
      (is_ready r.0 ≡ false)
      ⊎ ((is_ready r.0 ≡ before) × ((r.1.error ≢ none) ⊎ (r.1.requeue_after ≡ pos second)))

module _ {k : Toolkit} (laws : ConditionLaws k) (c : Cluster) where
  record_attempt_failure-unready :
      (r : Reason) (msg : String) (now : ℤ) (b : Backoff) (s : Session k)
      → is_ready (record_attempt_failure k c r msg now b s).0 ≡ false
  unfolding record_attempt_failure failed_status exhaust_budget back_off same_type
  record_attempt_failure-unready r msg now b s = grind (arith, ready-mark_false laws)

  evaluate_run-unready :
      (class : ArtifactClass) (g : GeneratorSpec) (run : Object) (now : ℤ) (b : Backoff)
      (s : Session k)
      → is_ready (evaluate_run k c class g run now b s).0 ≡ false
  unfolding evaluate_run evaluate_unfailed verify_success note_success await_artifact diagnose
      watch_progress same_type
  evaluate_run-unready class g run now b s =
      grind (arith, ready-mark_false laws, record_attempt_failure-unready)

  adopt-Unproven :
      (in_ : Input) (name : String) (r : Result Object) (s : Session k)
      → Unproven (is_ready s) (adopt k c in_ name r s)
  unfolding adopt
  adopt-Unproven in_ name (ok run) s = grind (arith, ready-mark_false laws)
  adopt-Unproven in_ name (err e) s = inl (ready-mark_false laws _ _ _)

  create_refused-unready : (e : Error) (s : Session k) → is_ready (create_refused k c e s).0 ≡ false
  unfolding create_refused
  create_refused-unready e s = ready-mark_false laws _ _ _

  created-unready :
      (in_ : Input) (gvk : GroupVersionKind) (name : String) (run : Object) (s : Session k)
      → is_ready (created k c in_ gvk name run s).0 ≡ false
  unfolding created
  created-unready in_ gvk name run s = ready-mark_false laws _ _ _

  submit_run-Unproven :
      (in_ : Input) (run : Object) (s : Session k)
      → Unproven (is_ready s) (submit_run k c in_ run s)
  unfolding submit_run
  submit_run-Unproven in_ run s =
      grind (arith, adopt-Unproven, create_refused-unready, created-unready)

  create_run-Unproven :
      (g : GeneratorSpec) (in_ : Input) (s : Session k)
      → Unproven (is_ready s) (create_run k c g in_ s)
  unfolding create_run ensure_generator_watch
  create_run-Unproven g in_ s = grind (arith, ready-mark_false laws, submit_run-Unproven)

  answer_in_flight-Unproven :
      (class : ArtifactClass) (g : GeneratorSpec) (r : Result Object) (now : ℤ) (b : Backoff)
      (s : Session k)
      → Unproven (is_ready s) (answer_in_flight k c class g r now b s)
  unfolding answer_in_flight
  answer_in_flight-Unproven class g (ok run) now b s =
      inl (evaluate_run-unready class g run now b s)
  answer_in_flight-Unproven class g (err e) now b s = ground arith

  start_attempt-Unproven :
      (g : GeneratorSpec) (in_ : Input) (now : ℤ) (next : Option ℤ) (s : Session k)
      → Unproven (is_ready s) (start_attempt k c g in_ now next s)
  unfolding start_attempt backing_off
  start_attempt-Unproven g in_ now none s = create_run-Unproven g in_ s
  start_attempt-Unproven g in_ now (some next) s =
      grind (arith, ready-mark_false laws, create_run-Unproven)

  drive_generator-Unproven :
      (class : ArtifactClass) (g : GeneratorSpec) (in_ : Input) (now : ℤ) (s : Session k)
      → Unproven (is_ready s) (drive_generator k c class g in_ now s)
  unfolding drive_generator budget_exhausted
  drive_generator-Unproven class g in_ now s =
      grind (arith, ready-mark_false laws, answer_in_flight-Unproven, start_attempt-Unproven)

  without_generator-Unproven :
      (class : ArtifactClass) (in_ : Input) (s : Session k)
      → Unproven (is_ready s) (without_generator k c class in_ s)
  unfolding without_generator delete_abandoned_run
  without_generator-Unproven class in_ s = grind (arith, ready-mark_false laws)

  note_absence-is_ready :
      (in_ : Input) (s : Session k) → is_ready (note_absence k c in_ s) ≡ is_ready s
  unfolding note_absence same_type
  note_absence-is_ready in_ s = grind (arith, ready-mark-other laws)

  reconcile_missing-Unproven :
      (class : ArtifactClass) (in_ : Input) (now : ℤ) (s : Session k)
      → Unproven (is_ready s) (reconcile_missing k c class in_ now s)
  unfolding reconcile_missing
  reconcile_missing-Unproven class in_ now s =
      grind
        (arith, note_absence-is_ready in_ s, without_generator-Unproven, drive_generator-Unproven)

  -- The store has the object with our stamp or none, and the status records this observation.
  pub record Verified (class : ArtifactClass) (in_ : Input) (now : ℤ) (obs : Observation)
      (r : Session k) : Type 0 where
    pub found : obs.exists ≡ true
    pub stamped : adoptable (stamp_of k class obs) in_.spec_hash ≡ true
    pub state_ready : r.obj.status.state ≡ State.ready
    pub digest_kept : r.obj.status.digest ≡ obs.digest
    pub seen : r.obj.status.last_verified_time ≡ some now

  record_drift-is_ready :
      (class : ArtifactClass) (key was is : String) (s : Session k)
      → is_ready (record_drift k c class key was is s) ≡ is_ready s
  unfolding record_drift same_type
  record_drift-is_ready class key was is s = grind (arith, ready-mark-other laws)

  accept_existing-Verified :
      (class : ArtifactClass) (obs : Observation) (in_ : Input) (now : ℤ) (s : Session k)
      → obs.exists ≡ true
      → adoptable (stamp_of k class obs) in_.spec_hash ≡ true
      → Verified class in_ now obs (accept_existing k c class obs in_ now s).0
        ⊎ Unproven (is_ready s) (accept_existing k c class obs in_ now s)
  unfolding accept_existing become_ready verified_status
  accept_existing-Verified class obs in_ now s h h' =
      grind (arith, record_drift-is_ready, reconcile_missing-Unproven)

  key_conflict-unready :
      (in_ : Input) (stamp : String) (s : Session k)
      → is_ready (key_conflict k c in_ stamp s).0 ≡ false
  unfolding key_conflict
  key_conflict-unready in_ stamp s = ready-mark_false laws _ _ _

  missing_observed-unready :
      (in_ : Input) (s : Session k) → is_ready (reconcile_missing_observed k c in_ s).0 ≡ false
  unfolding reconcile_missing_observed
  missing_observed-unready in_ s = grind (arith, ready-mark_false laws)

  -- After a reconciliation that has the store's answer, either the object was found with the
  -- Artifact's stamp or none and is recorded, or Ready is not True, or Ready is as it was before
  -- and the controller comes back after a second or with an error.
  pub dispatch-Verified :
      (class : ArtifactClass) (in_ : Input) (now : ℤ) (obs : Observation) (s : Session k)
      → Verified class in_ now obs (dispatch k c class in_ now obs s).0
        ⊎ Unproven (is_ready s) (dispatch k c class in_ now obs s)
  unfolding dispatch reconcile_existing
  dispatch-Verified class in_ now obs s = grind (
    arith,
    accept_existing-Verified class obs in_ now s,
    key_conflict-unready,
    missing_observed-unready in_ s,
    reconcile_missing-Unproven class in_ now s,
  )
