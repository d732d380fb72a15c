-- ===== src/Controller/Reconcile.antt =====
-- reconcile of artifact_controller.go: the state machine.
use artifact_controller.Prelude.{
  Bool, false, not, ◌&&◌, ◌*◌, Option, none, some, [], ◌∷◌, ◌==◌, if◌then◌else◌,
}
use artifact_controller.Prelude.Maps.{get_text}
use artifact_controller.Prelude.Int.{ℤ, pos, ltb_ℤ, leb_ℤ, sub_time, second, minute}
use artifact_controller.Prelude.Result.{Error, Result, ok, err, is_not_found}
use artifact_controller.Api.Conditions.{ConditionType, Reason, State, is_unset}
use artifact_controller.Api.Artifact.{Artifact, observe_only, retry_annotation}
use artifact_controller.Api.ArtifactClass.{ArtifactClass, key_template}
use artifact_controller.Toolkit.{Toolkit, Input, Arg}
use artifact_controller.Calls.{Call, EventType}
use artifact_controller.Hash.{canonical, short}
use artifact_controller.Store.{Observation, Driver, driver_for}
use artifact_controller.Generator.Render.{render_key}
use artifact_controller.Controller.Session.{
  Cluster, Session, Outcome, requeue, done, fail, call, emit, set_status, mark_false,
  drop_condition, forget_run,
}
use artifact_controller.Controller.Timing.{jittered}
use artifact_controller.Controller.Run.{delete_abandoned_run}
use artifact_controller.Controller.Create.{template_failed}
use artifact_controller.Controller.Existing.{reconcile_existing}
use artifact_controller.Controller.Missing.{reconcile_missing, reconcile_missing_observed}
use artifact_controller.Controller.Removal.{reconcile_expired}

-- A limit is reached where it is set, positive, and no longer than the age.
abbrev pub reached : Option ℤ → ℤ → Bool
reached none age = false
reached (some d) age = ltb_ℤ (pos 0) d && leb_ℤ d age

abbrev pub value_or : ℤ → Option ℤ → ℤ
value_or d none = d
value_or d (some x) = x

module _ (k : Toolkit) (c : Cluster) where
  -- The state of a new object, and the generation that is being looked at.
  unfoldable pub note_generation : Session k → Session k
  note_generation s =
      let state = s.obj.status.state in
      set_status
        (record s.obj.status {
          state = if is_unset state then State.pending else state;
          observed_generation = s.obj.generation;
        })
        s

  unfoldable pub suspended : Session k → Session k × Outcome
  suspended s = done (
      set_status
        (mark_false k ConditionType.ready Reason.suspended "reconciliation is suspended" (
          drop_condition k ConditionType.reconciling
            (record s.obj.status { state = State.suspended })))
        s)

  -- The retry annotation resets the failure budget, once for each token.
  unfoldable pub honor_retry : Session k → Session k
  honor_retry s =
      let token = get_text retry_annotation s.obj.annotations in
      if not (token == "") && not (token == s.obj.status.retry_token)
      then emit EventType.normal "RetryRequested" "failure budget reset via retry annotation" (
          set_status
            (drop_condition k ConditionType.stalled (record s.obj.status {
              retry_token = token;
              failed_attempts = pos 0;
              last_failure_time = none;
              last_failure_message = "";
            }))
            s)
      else s

  -- A policy flip to Observe cancels the run in flight; the reference stays if that fails.
  unfoldable pub cancel_for_observe : Session k → Session k × Option Error
  cancel_for_observe s = elim s.obj.status.generator_ref [
    | none ↦ (s, none)
    | some ref ↦
        if observe_only s.obj
        then (let (s1, e) = delete_abandoned_run k c ref "managementPolicy is Observe" s in
            elim e [ none ↦ (forget_run k s1, none) | some x ↦ (s1, some x) ])
        else (s, none)
  ]

  -- The data for the templates, before the key is rendered.
  unfoldable pub input_for : Artifact → ArtifactClass → Input
  input_for obj class = record {
    identity = obj.spec.identity;
    params = obj.spec.params;
    spec_hash = canonical k obj.spec.identity;
    spec_hex = short (canonical k obj.spec.identity) 64;
    key = "";
    name = obj.name;
    namespace = obj.namespace;
    class = class.name;
    attempt = pos 0;
  }

  -- ttl: the Artifact itself is deleted; the finalizer applies the deletion policy.
  unfoldable pub expire_ttl : ℤ → Session k → Session k × Outcome
  expire_ttl ttl s =
      let s1 =
        emit EventType.normal "TTLExpired"
          (k.sprintf "ttl %s reached; deleting Artifact" (Arg.span ttl ∷ [])) s in
      let s2 = call (Call.delete_artifact s.obj.namespace s.obj.name) s1 in
      elim (c.delete_artifact s1.trace s.obj.namespace s.obj.name) [
        | none ↦ done s2
        | some e ↦ if is_not_found e.kind then done s2 else fail e s2
      ]

  -- What the store's answer leads to.
  unfoldable pub dispatch :
      ArtifactClass → Input → ℤ → Observation → Session k → Session k × Outcome
  dispatch class in_ now obs s =
      if obs.exists
      then reconcile_existing k c class obs in_ now s
      else if observe_only s.obj
      then reconcile_missing_observed k c in_ s
      else reconcile_missing k c class in_ now s

  unfoldable pub observe_store :
      ArtifactClass → Driver → Input → ℤ → Session k → Session k × Outcome
  observe_store class driver in_ now s =
      let s1 = call (Call.observe in_.key) s in
      elim (driver.observe s.trace in_.key) [
        | err e ↦ requeue (jittered c s1.trace (pos (30 * second))) (
            set_status
              (mark_false k ConditionType.ready Reason.store_unavailable
                (k.sprintf "%s" (Arg.text e.text ∷ [])) s.obj.status)
              s1)
        | ok obs ↦ dispatch class in_ now obs s1
      ]

  -- With the driver at hand: deleteAfter, or the store is observed.
  unfoldable pub with_driver :
      ArtifactClass → Result Driver → Input → ℤ → ℤ → Session k → Session k × Outcome
  with_driver class (err e) in_ now age s = requeue (pos minute) (
      set_status
        (mark_false k ConditionType.ready Reason.store_unavailable
          (k.sprintf "%s" (Arg.text e.text ∷ [])) s.obj.status)
        s)
  with_driver class (ok driver) in_ now age s =
      let delete_after = s.obj.spec.delete_after in
      if reached delete_after age && not (observe_only s.obj)
      then reconcile_expired k c class driver in_.key in_.spec_hash (value_or (pos 0) delete_after)
          now s
      else observe_store class driver in_ now s

  -- With the key rendered: the ttl, then the store.
  unfoldable pub with_key : ArtifactClass → Input → ℤ → Session k → Session k × Outcome
  with_key class in_ now s =
      let s1 = set_status (record s.obj.status { spec_hash = in_.spec_hash; key = in_.key }) s in
      let age = sub_time now s.obj.creation_timestamp in
      if reached s.obj.spec.ttl age
      then expire_ttl (value_or (pos 0) s.obj.spec.ttl) s1
      else with_driver class (driver_for k c.registry s1.trace class) in_ now age
          (call (Call.build_driver class.store.driver) s1)

  unfoldable pub with_class : Result ArtifactClass → ℤ → Session k → Session k × Outcome
  with_class (err e) now s =
      if is_not_found e.kind
      then requeue (pos (30 * second)) (
          set_status
            (mark_false k ConditionType.ready Reason.class_not_found
              (k.sprintf "ArtifactClass %q not found" (Arg.text s.obj.spec.class_ref ∷ []))
              s.obj.status)
            s)
      else fail e s
  with_class (ok class) now s =
      let in_ = input_for s.obj class in
      elim (render_key k (key_template class) in_) [
        | err e ↦ template_failed k c e s
        | ok key ↦ with_key class (record in_ { key = key }) now s
      ]

  -- The part of reconcile behind the suspension.
  unfoldable pub reconcile_active : ℤ → Session k → Session k × Outcome
  reconcile_active now s =
      let (s1, e) = cancel_for_observe (honor_retry s) in
      elim e [
        | some x ↦ fail x s1
        | none ↦
            with_class (c.get_class s1.trace s1.obj.spec.class_ref) now
              (call (Call.get_class s1.obj.spec.class_ref) s1)
      ]

  -- reconcile
  unfoldable pub reconcile : Session k → Session k × Outcome
  reconcile s =
      let now = c.now s.trace in
      let s1 = note_generation s in
      if s.obj.spec.suspend then suspended s1 else reconcile_active now s1
