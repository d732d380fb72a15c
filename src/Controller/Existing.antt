-- ===== src/Controller/Existing.antt =====
-- reconcileExisting and recordDrift of artifact_controller.go: an object at the key.
use artifact_controller.Prelude.{
  String, Bool, true, false, not, ◌&&◌, none, some, [], ◌∷◌, ◌==◌, if◌then◌else◌, is_none,
}
use artifact_controller.Prelude.Int.{ℤ, pos}
use artifact_controller.Prelude.Maps.{get_text}
use artifact_controller.Api.Conditions.{ConditionType, Reason, State, reason_text}
use artifact_controller.Api.Artifact.{ArtifactStatus, observe_only, get_interval}
use artifact_controller.Api.ArtifactClass.{
  ArtifactClass, DriftPolicy, stamp_metadata_key, drift_policy,
}
use artifact_controller.Toolkit.{Toolkit, Input, Arg}
use artifact_controller.Calls.{EventType}
use artifact_controller.Store.{Observation}
use artifact_controller.Controller.Session.{
  Cluster, Session, Outcome, requeue, emit, set_status, mark_true, mark_false, drop_condition,
}
use artifact_controller.Controller.Timing.{jittered}
use artifact_controller.Controller.Missing.{reconcile_missing}

abbrev pub is_ignore : DriftPolicy → Bool
is_ignore DriftPolicy.ignore = true
is_ignore _ = false

abbrev pub is_regenerate : DriftPolicy → Bool
is_regenerate DriftPolicy.regenerate = true
is_regenerate _ = false

-- obs.Metadata[class.StampMetadataKey()]
unfoldable pub stamp_of : Toolkit → ArtifactClass → Observation → String
stamp_of k class obs = get_text (stamp_metadata_key k.to_lower class) obs.metadata

module _ (k : Toolkit) (c : Cluster) where
  -- A foreign object is at the key: it is neither adopted nor overwritten.
  unfoldable pub key_conflict : Input → String → Session k → Session k × Outcome
  key_conflict in_ stamp s =
      let st =
        drop_condition k ConditionType.reconciling
          (record s.obj.status { state = State.key_conflict }) in
      let st1 =
        mark_false k ConditionType.artifact_in_store Reason.key_conflict
          (k.sprintf "store object at %q is stamped %s" (Arg.text in_.key ∷ Arg.text stamp ∷ []))
          st in
      let st2 =
        mark_false k ConditionType.ready Reason.key_conflict
          (k.sprintf
            "store object at %q carries provenance stamp %s, expected %s; refusing to adopt or overwrite"
            (Arg.text in_.key ∷ Arg.text stamp ∷ Arg.text in_.spec_hash ∷ []))
          st1 in
      let s1 =
        emit EventType.warning "KeyConflict"
          (k.sprintf "foreign object at store key %q (stamp %s)"
            (Arg.text in_.key ∷ Arg.text stamp ∷ []))
          (set_status st2 s) in
      requeue (jittered c s1.trace (get_interval s1.obj)) s1

  -- recordDrift
  unfoldable pub record_drift : ArtifactClass → String → String → String → Session k → Session k
  record_drift class key was now s =
      let msg =
        k.sprintf "content at %q changed from %s to %s with no generator run of ours in between"
          (Arg.text key ∷ Arg.text was ∷ Arg.text now ∷ []) in
      if is_ignore (drift_policy class)
      then s
      else emit EventType.warning (reason_text Reason.content_drifted) msg (
          set_status
            (mark_true k ConditionType.artifact_drifted Reason.content_drifted msg s.obj.status) s)

  -- The content changed, and no run of ours was under way since the last verification.
  unfoldable pub drifted : Observation → ArtifactStatus → Bool
  drifted obs st =
      not (obs.digest == "")
      && (not (st.digest == "")
          && (not (obs.digest == st.digest)
              && (is_none st.generator_succeeded_at && is_none st.generator_ref)))

  -- The status of a verified artifact.
  unfoldable pub verified_status : Observation → Input → ℤ → ArtifactStatus → ArtifactStatus
  verified_status obs in_ now st =
      let msg = k.sprintf "artifact present at %q" (Arg.text in_.key ∷ []) in
      mark_true k ConditionType.ready Reason.artifact_available msg (
        mark_true k ConditionType.artifact_in_store Reason.artifact_available msg (
          drop_condition k ConditionType.stalled (
            drop_condition k ConditionType.reconciling (record st {
              digest = obs.digest;
              last_verified_time = some now;
              failed_attempts = pos 0;
              last_failure_time = none;
              last_failure_message = "";
              generator_ref = none;
              generator_succeeded_at = none;
              state = State.ready;
            }))))

  -- Ready, with an event where it was not ready before.
  unfoldable pub become_ready : Observation → Input → ℤ → Bool → Session k → Session k × Outcome
  become_ready obs in_ now was_ready s =
      let s1 = set_status (verified_status obs in_ now s.obj.status) s in
      let s2 =
        if was_ready
        then s1
        else emit EventType.normal "ArtifactAvailable"
            (k.sprintf "artifact observed at %q (%s)" (Arg.text in_.key ∷ Arg.text obs.digest ∷ []))
            s1 in
      requeue (jittered c s2.trace (get_interval s2.obj)) s2

  -- An expected change, or the first observation, is the new baseline.
  unfoldable pub rebaseline : Observation → Session k → Session k
  rebaseline obs s =
      if not (obs.digest == "") && not (obs.digest == s.obj.status.digest)
      then set_status (drop_condition k ConditionType.artifact_drifted s.obj.status) s
      else s

  unfoldable pub accept_existing :
      ArtifactClass → Observation → Input → ℤ → Session k → Session k × Outcome
  accept_existing class obs in_ now s =
      let was_ready = k.is_true ConditionType.ready s.obj.status.conditions in
      if drifted obs s.obj.status
      then (let s1 = record_drift class in_.key s.obj.status.digest obs.digest s in
          if is_regenerate (drift_policy class) && not (observe_only s.obj)
          then reconcile_missing k c class in_ now
              (set_status (record s1.obj.status { digest = "" }) s1)
          else become_ready obs in_ now was_ready s1)
      else become_ready obs in_ now was_ready (rebaseline obs s)

  -- reconcileExisting
  unfoldable pub reconcile_existing :
      ArtifactClass → Observation → Input → ℤ → Session k → Session k × Outcome
  reconcile_existing class obs in_ now s =
      let stamp = stamp_of k class obs in
      if not (stamp == "") && not (stamp == in_.spec_hash)
      then key_conflict in_ stamp s
      else accept_existing class obs in_ now s
