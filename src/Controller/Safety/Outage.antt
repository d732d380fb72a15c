-- ===== src/Controller/Safety/Outage.antt =====
-- A store that does not answer: the Artifact is left as it is.
use artifact_controller.Prelude.{
  String, true, false, ◌≡◌, subst, sym, arith, eq_iff, none, ◌∷◌, ◌⊎◌, if◌then◌else◌,
}
use artifact_controller.Prelude.Int.{ℤ, sub_time}
use artifact_controller.Prelude.Maps.{get_text}
use artifact_controller.Prelude.Result.{Error, Result, ok, err}
use artifact_controller.Toolkit.{Toolkit, ConditionLaws, Input}
use artifact_controller.Calls.{Call, Trace}
use artifact_controller.Api.Conditions.{State, is_unset}
use artifact_controller.Api.Artifact.{observe_only, retry_annotation, artifact_finalizer}
use artifact_controller.Api.ArtifactClass.{ArtifactClass, key_template}
use artifact_controller.Hash.{canonical}
use artifact_controller.Generator.Render.{render_key}
use artifact_controller.Store.{Driver, driver_for}
use artifact_controller.Controller.Session.{Cluster, Session, Outcome, call, set_status}
use artifact_controller.Controller.Removal.{reconcile_expired}
use artifact_controller.Controller.Reconcile.{
  reached, note_generation, honor_retry, cancel_for_observe, input_for, observe_store, with_driver,
  with_key, with_class, reconcile_active, reconcile,
}
use artifact_controller.Controller.Request.{handle}
use artifact_controller.Controller.Readiness.Conditions.{ready-mark_false}
use artifact_controller.Controller.Readiness.Soundness.{is_ready}

-- The class has no driver, or its driver gave no answer for the key, after the calls of `tr`.
pub data Unanswered (d : Result Driver) (key : String) (tr : Trace) : Type 0 where
  no_driver : (e : Error) → d ≡ err e → Unanswered d key tr
  no_answer :
      (driver : Driver) (e : Error)
      → d ≡ ok driver
      → driver.observe tr key ≡ err e
      → Unanswered d key tr

module _ {k : Toolkit} (laws : ConditionLaws k) (c : Cluster) where
  -- Only the conditions changed, Ready is not True, and nothing was called but the observation.
  record Untouched (key : String) (s r : Session k) : Type 0 where
    kept :
        r.obj
        ≡ record s.obj { status = record s.obj.status { conditions = r.obj.status.conditions } }
    not_ready : is_ready r ≡ false
    calls : (r.trace ≡ s.trace) ⊎ (r.trace ≡ Call.observe key ∷ s.trace)

  with_driver-Untouched :
      (class : ArtifactClass) (d : Result Driver) (in_ : Input) (now age : ℤ) (s : Session k)
      → Unanswered d in_.key s.trace
      → Untouched in_.key s (with_driver k c class d in_ now age s).0
        × ((with_driver k c class d in_ now age s).1.error ≡ none)
  unfolding with_driver reconcile_expired observe_store
  with_driver-Untouched class d in_ now age s (no_driver e q) =
      grind (arith, q, ready-mark_false laws)
  with_driver-Untouched class d in_ now age s (no_answer driver e q a) =
      grind (arith, q, a, ready-mark_false laws)

  -- An Artifact of the class that is due to be observed at the key: alive, with its finalizer, not
  -- suspended, managed or without a run in flight, without a new retry token, and its ttl not over.
  pub record Due (class : ArtifactClass) (key : String) (s : Session k) : Type 0 where
    pub alive : s.obj.deletion_timestamp ≡ none
    pub anchored : k.contains_finalizer s.obj.finalizers artifact_finalizer ≡ true
    pub active : s.obj.spec.suspend ≡ false
    pub kept_policy : (observe_only s.obj ≡ false) ⊎ (s.obj.status.generator_ref ≡ none)
    pub no_retry :
        (get_text retry_annotation s.obj.annotations ≡ "")
        ⊎ (get_text retry_annotation s.obj.annotations ≡ s.obj.status.retry_token)
    pub lives : reached s.obj.spec.ttl (sub_time (c.now s.trace) s.obj.creation_timestamp) ≡ false
    pub found : c.get_class s.trace s.obj.spec.class_ref ≡ ok class
    pub rendered : render_key k (key_template class) (input_for k c s.obj class) ≡ ok key

  -- The calls up to the driver.
  abbrev pub prepared : ArtifactClass → Session k → Trace
  prepared class s =
      Call.build_driver class.store.driver ∷ Call.get_class s.obj.spec.class_ref ∷ s.trace

  -- What a handler writes when the store does not answer: conditions, and what it notes of the
  -- specification, which are the generation, the hash of the identity, the key, and Pending as the
  -- state of a new object.
  pub record Survives (class : ArtifactClass) (key : String) (s : Session k)
      (r : Session k × Outcome) : Type 0 where
    pub kept : r.0.obj ≡ record s.obj {
      status = record s.obj.status {
        conditions = r.0.obj.status.conditions;
        state = if is_unset s.obj.status.state then State.pending else s.obj.status.state;
        observed_generation = s.obj.generation;
        spec_hash = canonical k s.obj.spec.identity;
        key = key;
      };
    }
    pub not_ready : is_ready r.0 ≡ false
    pub calls : (r.0.trace ≡ prepared class s) ⊎ (r.0.trace ≡ Call.observe key ∷ prepared class s)
    pub no_error : r.1.error ≡ none

  -- The session that the driver's stage begins with.
  abbrev reaching : ArtifactClass → String → Session k → Session k
  reaching class key s =
      let s1 = call (Call.get_class s.obj.spec.class_ref) (note_generation k c s) in
      call (Call.build_driver class.store.driver) (
        set_status (record s1.obj.status { spec_hash = canonical k s.obj.spec.identity; key = key })
          s1)

  abbrev keyed : ArtifactClass → String → Session k → Input
  keyed class key s = record (input_for k c s.obj class) { key = key }

  handle-with_driver :
      (class : ArtifactClass) (key : String) (s : Session k)
      → Due class key s
      → handle k c s
        ≡ with_driver k c class
            (driver_for k c.registry (Call.get_class s.obj.spec.class_ref ∷ s.trace) class)
            (keyed class key s)
            (c.now s.trace)
            (sub_time (c.now s.trace) s.obj.creation_timestamp)
            (reaching class key s)
  unfolding handle reconcile reconcile_active note_generation honor_retry cancel_for_observe
      with_class with_key input_for
  handle-with_driver class key s d = ground (
    arith,
    d.alive,
    d.anchored,
    d.active,
    d.kept_policy,
    d.no_retry,
    d.lives,
    d.found,
    d.rendered,
    eq_iff (get_text retry_annotation s.obj.annotations) "",
    eq_iff (get_text retry_annotation s.obj.annotations) s.obj.status.retry_token,
  )

  -- From what the stage leaves untouched to what the handler writes.
  Untouched-Survives :
      (class : ArtifactClass) (key : String) (s : Session k) (r : Session k × Outcome)
      → Untouched key (reaching class key s) r.0 × (r.1.error ≡ none)
      → Survives class key s r
  unfolding note_generation
  Untouched-Survives class key s r (u, e) = record {
    kept = u.kept;
    not_ready = u.not_ready;
    calls = u.calls;
    no_error = e;
  }

  -- Where the store does not answer, because the class has no driver or the driver's observation
  -- fails, the handler leaves an Artifact that is due to be observed as it is: it writes conditions,
  -- and what it notes of the specification. No run is created, cancelled or charged, nothing is
  -- deleted, the digest and the counters stay. The Artifact is not ready, and there is no error.
  -- Due to be observed is an Artifact with a class that is found and a key that renders, with the
  -- finalizer, neither suspended nor being deleted, managed or without a run in flight, without a
  -- new retry token, and with a ttl that is not over.
  pub handle-Survives :
      (class : ArtifactClass) (key : String) (s : Session k)
      → Due class key s
      → Unanswered
          (driver_for k c.registry (Call.get_class s.obj.spec.class_ref ∷ s.trace) class)
          key
          (prepared class s)
      → Survives class key s (handle k c s)
  unfolding note_generation
  handle-Survives class key s d u =
      subst (Survives class key s) (sym (handle-with_driver class key s d))
        (Untouched-Survives class key s _ (with_driver-Untouched class _ _ _ _ _ u))
