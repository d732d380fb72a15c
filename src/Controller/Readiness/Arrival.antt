-- ===== src/Controller/Readiness/Arrival.antt =====
-- A whole request that finds the object: from the Artifact as it is read to Ready.
use artifact_controller.Prelude.{String, true, false, ◌≡◌, refl, arith, none, subst, sym, ◌∷◌}
use artifact_controller.Prelude.Int.{ℤ}
use artifact_controller.Prelude.Result.{ok}
use artifact_controller.Toolkit.{Toolkit, ConditionLaws, Input}
use artifact_controller.Calls.{Call, Trace}
use artifact_controller.Api.Artifact.{Artifact, artifact_finalizer}
use artifact_controller.Api.ArtifactClass.{ArtifactClass, key_template}
use artifact_controller.Hash.{canonical}
use artifact_controller.Generator.Render.{render_key}
use artifact_controller.Store.{Observation, Driver, driver_for}
use artifact_controller.Controller.Session.{Cluster, Session, Outcome, call}
use artifact_controller.Controller.Existing.{accept_existing, become_ready, drifted, stamp_of}
use artifact_controller.Controller.Removal.{adoptable}
use artifact_controller.Controller.Reconcile.{
  note_generation, cancel_for_observe, input_for, dispatch, observe_store, with_driver, with_key,
  with_class, reconcile_active, reconcile,
}
use artifact_controller.Controller.Request.{Memory, keep, opened, handle, finish, reconcile_request}
use artifact_controller.Controller.Budget.Absence.{IsPlain, honor_retry-idle}
use artifact_controller.Controller.Readiness.Soundness.{Verified}
use artifact_controller.Controller.Readiness.Existing.{regenerates, Settled, dispatch-Settled}
use artifact_controller.Controller.Readiness.Steady.{dispatch-accept_existing}

module _ {k : Toolkit} (laws : ConditionLaws k) (c : Cluster) (class : ArtifactClass)
    (obs : Observation) where
  -- Ready without an error, with the observation recorded.
  pub record Arrived (in_ : Input) (now : ℤ) (r : Session k × Outcome) : Type 0 where
    pub settled : Settled laws c r.0
    pub verified : Verified laws c class in_ now obs r.0
    pub no_error : r.1.error ≡ none

  accept_existing-no_error :
      (in_ : Input) (now : ℤ) (s : Session k)
      → regenerates k c class obs s ≡ false
      → (accept_existing k c class obs in_ now s).1.error ≡ none
  unfolding accept_existing become_ready
  accept_existing-no_error in_ now s g = ground (arith, g)

  dispatch-Arrived :
      (in_ : Input) (now : ℤ) (s : Session k)
      → obs.exists ≡ true
      → adoptable (stamp_of k class obs) in_.spec_hash ≡ true
      → regenerates k c class obs s ≡ false
      → Arrived in_ now (dispatch k c class in_ now obs s)
  dispatch-Arrived in_ now s h f g =
      let (a, b) = dispatch-Settled laws c class in_ now obs s h f g in
      record {
        settled = a;
        verified = b;
        no_error =
            rw (dispatch-accept_existing laws c class in_ now obs s h f)
              (accept_existing-no_error in_ now s g);
      }

  cancel_for_observe-idle : (s : Session k) → IsPlain s.obj → cancel_for_observe k c s ≡ (s, none)
  unfolding cancel_for_observe
  cancel_for_observe-idle s p = ground (arith, p.managed)

  -- An Artifact of the class that is to be reconciled: plain and alive, with its finalizer, and
  -- with the key; the object's stamp is its own, or there is none, and no drift is to be mended.
  pub record Awaits (key : String) (s : Session k) : Type 0 where
    pub alive : s.obj.deletion_timestamp ≡ none
    pub anchored : k.contains_finalizer s.obj.finalizers artifact_finalizer ≡ true
    pub active : s.obj.spec.suspend ≡ false
    pub plain : IsPlain s.obj
    pub endless : s.obj.spec.ttl ≡ none
    pub rendered : render_key k (key_template class) (input_for k c s.obj class) ≡ ok key
    pub own : adoptable (stamp_of k class obs) (canonical k s.obj.spec.identity) ≡ true
    pub undrifted : regenerates k c class obs s ≡ false

  -- The template data of the Artifact, with the key.
  abbrev pub keyed : String → Artifact → Input
  keyed key obj = record (input_for k c obj class) { key = key }

  -- An environment that finds the object under the key, whenever it is asked.
  module _ (driver : Driver) (key : String)
      (built : (tr : Trace) → driver_for k c.registry tr class ≡ ok driver)
      (observed : (tr : Trace) → driver.observe tr key ≡ ok obs) (h : obs.exists ≡ true) where
    observe_store-Arrived :
        (in_ : Input) (now : ℤ) (s : Session k)
        → in_.key ≡ key
        → adoptable (stamp_of k class obs) in_.spec_hash ≡ true
        → regenerates k c class obs s ≡ false
        → Arrived in_ now (observe_store k c class driver in_ now s)
    unfolding observe_store
    observe_store-Arrived in_ now s e f g =
        let q : driver.observe s.trace in_.key ≡ ok obs = rw e (observed s.trace) in
        rw (q, observe_store) (dispatch-Arrived in_ now (call (Call.observe in_.key) s) h f g)

    with_driver-Arrived :
        (in_ : Input) (now age : ℤ) (s : Session k)
        → in_.key ≡ key
        → s.obj.spec.delete_after ≡ none
        → adoptable (stamp_of k class obs) in_.spec_hash ≡ true
        → regenerates k c class obs s ≡ false
        → Arrived in_ now (with_driver k c class (ok driver) in_ now age s)
    unfolding with_driver
    with_driver-Arrived in_ now age s e l f g =
        ground (arith, l, observe_store-Arrived in_ now s e f g)

    with_key-Arrived :
        (in_ : Input) (now : ℤ) (s : Session k)
        → in_.key ≡ key
        → s.obj.spec.ttl ≡ none
        → s.obj.spec.delete_after ≡ none
        → adoptable (stamp_of k class obs) in_.spec_hash ≡ true
        → regenerates k c class obs s ≡ false
        → Arrived in_ now (with_key k c class in_ now s)
    unfolding with_key drifted
    with_key-Arrived in_ now s e t l f g = grind (arith, t, built, with_driver-Arrived)

    with_class-Arrived :
        (now : ℤ) (s : Session k)
        → s.obj.spec.ttl ≡ none
        → s.obj.spec.delete_after ≡ none
        → render_key k (key_template class) (input_for k c s.obj class) ≡ ok key
        → adoptable (stamp_of k class obs) (canonical k s.obj.spec.identity) ≡ true
        → regenerates k c class obs s ≡ false
        → Arrived (keyed key s.obj) now (with_class k c (ok class) now s)
    unfolding with_class input_for
    with_class-Arrived now s t l e f g =
        let q : with_class k c (ok class) now s ≡ with_key k c class (keyed key s.obj) now s =
          ground (arith, e) in
        subst (Arrived (keyed key s.obj) now) (sym q)
          (with_key-Arrived (keyed key s.obj) now s refl t l f g)

    -- The class is found under the name that the Artifact has.
    module _ (name : String) (found : (tr : Trace) → c.get_class tr name ≡ ok class) where
      reconcile_active-Arrived :
          (now : ℤ) (s : Session k)
          → s.obj.spec.class_ref ≡ name
          → Awaits key s
          → Arrived (keyed key s.obj) now (reconcile_active k c now s)
      unfolding reconcile_active input_for
      reconcile_active-Arrived now s n a =
          let q : c.get_class s.trace s.obj.spec.class_ref ≡ ok class = rw n (found s.trace) in
          grind (
            arith,
            honor_retry-idle c s a.plain,
            cancel_for_observe-idle s a.plain,
            q,
            with_class-Arrived now (call (Call.get_class s.obj.spec.class_ref) s) a.endless
                a.plain.lasting a.rendered a.own a.undrifted,
          )

      note_generation-Awaits : (s : Session k) → Awaits key s → Awaits key (note_generation k c s)
      unfolding note_generation input_for drifted
      note_generation-Awaits s a = record {
        alive = a.alive;
        anchored = a.anchored;
        active = a.active;
        plain = record {
          managed = a.plain.managed;
          lasting = a.plain.lasting;
          no_retry = a.plain.no_retry;
        };
        endless = a.endless;
        rendered = a.rendered;
        own = a.own;
        undrifted = a.undrifted;
      }

      handle-Arrived :
          (s : Session k)
          → s.obj.spec.class_ref ≡ name
          → Awaits key s
          → Arrived (keyed key s.obj) (c.now s.trace) (handle k c s)
      unfolding handle reconcile note_generation input_for
      handle-Arrived s n a = ground (
        arith,
        a.alive,
        a.anchored,
        a.active,
        reconcile_active-Arrived (c.now s.trace) (note_generation k c s) n
            (note_generation-Awaits s a),
      )

      -- The request stores, with its patch, an Artifact that arrived.
      pub record Delivers (namespace request : String) (m : Memory k) (obj : Artifact)
          : Type 0 where
        pub end : Session k
        pub outcome : Outcome
        pub arrived :
            Arrived
              (keyed key obj)
              (c.now (Call.get_artifact namespace request ∷ m.trace))
              (end, outcome)
        pub stored :
            reconcile_request k c namespace request m
            ≡ (keep k (call (Call.patch end.obj) end), outcome)

      -- One request makes an Artifact Ready and stores it so, without an error, where these hold.
      -- The environment: the class is found, its driver is built and finds an object under the
      -- rendered key, and the patch is accepted. The object: its stamp is the Artifact's own or there
      -- is none, and there is no drift that the class regenerates. The Artifact: it has the
      -- finalizer, is managed, and is neither suspended nor being deleted, it has no ttl and no
      -- deleteAfter, and no retry token is new. The digest and the time of verification are recorded,
      -- no failures are counted and no run is in flight.
      pub reconcile_request-Delivers :
          (namespace request : String) (m : Memory k) (obj : Artifact)
          → c.get_artifact m.trace namespace request ≡ ok obj
          → ((tr : Trace) (o : Artifact) → c.patch tr o ≡ none)
          → obj.spec.class_ref ≡ name
          → Awaits key (opened k m obj (Call.get_artifact namespace request))
          → Delivers namespace request m obj
      unfolding reconcile_request finish
      reconcile_request-Delivers namespace request m obj e p n a =
          let s = opened k m obj (Call.get_artifact namespace request) in
          let (r, o) = handle k c s in
          record {
            end = r;
            outcome = o;
            arrived = handle-Arrived s n a;
            stored = ground (arith, e, p r.trace r.obj);
          }
