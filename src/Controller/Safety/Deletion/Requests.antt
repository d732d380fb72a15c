-- ===== src/Controller/Safety/Deletion/Requests.antt =====
-- Every deletion of a request is guarded.
use artifact_controller.Prelude.{String, ◌≡◌, refl, ap, subst, arith, some, none}
use artifact_controller.Prelude.Int.{ℤ, pos}
use artifact_controller.Prelude.Result.{Result, ok, err}
use artifact_controller.Toolkit.{Toolkit, Input}
use artifact_controller.Calls.{Call}
use artifact_controller.Api.Artifact.{Artifact, ArtifactSpec}
use artifact_controller.Api.ArtifactClass.{ArtifactClass}
use artifact_controller.Store.{Observation, Driver}
use artifact_controller.Hash.{canonical}
use artifact_controller.Controller.Session.{Cluster, Session, call}
use artifact_controller.Controller.Run.{delete_abandoned_run}
use artifact_controller.Controller.Missing.{reconcile_missing_observed}
use artifact_controller.Controller.Reconcile.{
  note_generation, suspended, honor_retry, cancel_for_observe, input_for, value_or, expire_ttl,
  dispatch, observe_store, with_driver, with_key, with_class, reconcile_active, reconcile,
}
use artifact_controller.Controller.Request.{Memory, opened, handle, finish, reconcile_request}
use artifact_controller.Controller.Safety.Deletion.{Guarded, Built, reconcile_expired-Guarded}
use artifact_controller.Controller.Safety.Deletion.Generation.{
  reconcile_existing-Guarded, reconcile_missing-Guarded,
}
use artifact_controller.Controller.Safety.Deletion.Finalizing.{
  Got, got, built, reconcile_delete-Guarded,
}

module _ (k : Toolkit) (c : Cluster) where
  -- The stamp that the objects of an Artifact carry: the hash of its identity, and on deletion the
  -- hash that its status records.
  abbrev pub own_stamp : Artifact → String
  own_stamp obj = elim obj.deletion_timestamp [
    | none ↦ canonical k obj.spec.identity
    | some t ↦ obj.status.spec_hash
  ]

module _ (k : Toolkit) (c : Cluster) (ref : String) where
  dispatch-Guarded :
      (class : ArtifactClass) (in_ : Input) (now : ℤ) (obs : Observation) (h : String)
      (s : Session k)
      → Guarded k c ref h s.trace
      → Guarded k c ref h (dispatch k c class in_ now obs s).0.trace
  unfolding dispatch reconcile_missing_observed
  dispatch-Guarded class in_ now obs h s x = ground (
    arith,
    reconcile_existing-Guarded k c ref h class obs in_ now s x,
    reconcile_missing-Guarded k c ref h class in_ now s x,
  )

  observe_store-Guarded :
      (class : ArtifactClass) (driver : Driver) (in_ : Input) (now : ℤ) (h : String) (s : Session k)
      → Guarded k c ref h s.trace
      → Guarded k c ref h (observe_store k c class driver in_ now s).0.trace
  unfolding observe_store
  observe_store-Guarded class driver in_ now h s x = grind (
    arith,
    λ (obs : Observation). dispatch-Guarded class in_ now obs h (call (Call.observe in_.key) s),
  )

  with_driver-Guarded :
      (class : ArtifactClass) (d : Result Driver) (in_ : Input) (now age : ℤ) (s : Session k)
      → ((driver : Driver) → d ≡ ok driver → Built k c ref class driver s.trace)
      → Guarded k c ref in_.spec_hash s.trace
      → Guarded k c ref in_.spec_hash (with_driver k c class d in_ now age s).0.trace
  unfolding with_driver
  with_driver-Guarded class (err e) in_ now age s b x = ground arith
  with_driver-Guarded class (ok driver) in_ now age s b x = ground (
    arith,
    observe_store-Guarded class driver in_ now in_.spec_hash s x,
    reconcile_expired-Guarded k c ref class driver in_.key in_.spec_hash
        (value_or (pos 0) s.obj.spec.delete_after) now s (b driver refl) x,
  )

  with_key-Guarded :
      (class : ArtifactClass) (in_ : Input) (now : ℤ) (s : Session k)
      → Got k c ref class s.trace
      → Guarded k c ref in_.spec_hash s.trace
      → Guarded k c ref in_.spec_hash (with_key k c class in_ now s).0.trace
  unfolding with_key expire_ttl
  with_key-Guarded class in_ now s g x =
      grind (arith, with_driver-Guarded, λ (d : Driver). built k c ref class d s.trace g)

  with_class-Guarded :
      (r : Result ArtifactClass) (now : ℤ) (s : Session k)
      → ((class : ArtifactClass) → r ≡ ok class → Got k c ref class s.trace)
      → Guarded k c ref (canonical k s.obj.spec.identity) s.trace
      → Guarded k c ref (canonical k s.obj.spec.identity) (with_class k c r now s).0.trace
  unfolding with_class input_for
  with_class-Guarded (err e) now s g x = ground arith
  with_class-Guarded (ok class) now s g x = grind (
    arith,
    λ (key : String).
        with_key-Guarded class (record (input_for k c s.obj class) { key = key }) now s
          (g class refl) x,
  )

  -- The stages in front of the class change no part of the specification.
  spec-cancel_for_observe :
      (s : Session k) → (cancel_for_observe k c (honor_retry k c s)).0.obj.spec ≡ s.obj.spec
  unfolding cancel_for_observe honor_retry delete_abandoned_run
  spec-cancel_for_observe s = ground arith

  cancel_for_observe-Guarded :
      (h : String) (s : Session k)
      → Guarded k c ref h s.trace
      → Guarded k c ref h (cancel_for_observe k c (honor_retry k c s)).0.trace
  unfolding cancel_for_observe honor_retry delete_abandoned_run
  cancel_for_observe-Guarded h s x = ground arith

  with_class-Guarded_at :
      (now : ℤ) (h : String) (s : Session k)
      → canonical k s.obj.spec.identity ≡ h
      → Guarded k c ref h s.trace
      → Guarded k c ref h
          (with_class k c (c.get_class s.trace ref) now (call (Call.get_class ref) s)).0.trace
  with_class-Guarded_at now h s e =
      let s1 = call (Call.get_class ref) s in
      subst
        (λ h.
          Guarded k c ref h s.trace
          → Guarded k c ref h (with_class k c (c.get_class s.trace ref) now s1).0.trace)
        e
        (with_class-Guarded (c.get_class s.trace ref) now s1
          (λ class e. got k c ref class s.trace e))

  reconcile_active-Guarded :
      (now : ℤ) (s : Session k)
      → s.obj.spec.class_ref ≡ ref
      → Guarded k c ref (canonical k s.obj.spec.identity) s.trace
      → Guarded k c ref (canonical k s.obj.spec.identity) (reconcile_active k c now s).0.trace
  unfolding reconcile_active
  reconcile_active-Guarded now s q x =
      let h = canonical k s.obj.spec.identity in
      let s1 = (cancel_for_observe k c (honor_retry k c s)).0 in
      let x1 = cancel_for_observe-Guarded h s x in
      ground (
        arith,
        x1,
        q,
        ap (λ (sp : ArtifactSpec). sp.class_ref) (spec-cancel_for_observe s),
        with_class-Guarded_at now h s1
            (ap (λ (sp : ArtifactSpec). canonical k sp.identity) (spec-cancel_for_observe s)) x1,
      )

  reconcile-Guarded :
      (s : Session k)
      → s.obj.spec.class_ref ≡ ref
      → Guarded k c ref (canonical k s.obj.spec.identity) s.trace
      → Guarded k c ref (canonical k s.obj.spec.identity) (reconcile k c s).0.trace
  unfolding reconcile note_generation suspended
  reconcile-Guarded s q x = grind (arith, reconcile_active-Guarded)

  handle-Guarded :
      (s : Session k)
      → s.obj.spec.class_ref ≡ ref
      → Guarded k c ref (own_stamp k c s.obj) s.trace
      → Guarded k c ref (own_stamp k c s.obj) (handle k c s).0.trace
  unfolding handle
  handle-Guarded s q x =
      ground (arith, q, reconcile-Guarded s q, reconcile_delete-Guarded k c ref s q)

module _ (k : Toolkit) (c : Cluster) where
  -- In the calls of a request every deletion of a store object follows directly on an observation
  -- of the same key that found an object with the Artifact's own stamp or with none. The observation
  -- is by the driver that was built, directly before it, from the class just fetched by the name in
  -- the Artifact's classRef. A foreign object is never deleted.
  pub reconcile_request-Guarded :
      (namespace name : String) (m : Memory k) (obj : Artifact)
      → c.get_artifact m.trace namespace name ≡ ok obj
      → Guarded k c obj.spec.class_ref (own_stamp k c obj) m.trace
      → Guarded k c obj.spec.class_ref
          (own_stamp k c obj)
          (reconcile_request k c namespace name m).0.trace
  unfolding reconcile_request finish
  reconcile_request-Guarded namespace name m obj e x = ground (
    arith,
    handle-Guarded k c obj.spec.class_ref (opened k m obj (Call.get_artifact namespace name)) refl
        x,
  )
