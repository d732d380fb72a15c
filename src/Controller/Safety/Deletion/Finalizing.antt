-- ===== src/Controller/Safety/Deletion/Finalizing.antt =====
-- The finalizer's deletion is guarded.
use artifact_controller.Prelude.{String, ◌∷◌, ◌≡◌, refl, arith, true}
use artifact_controller.Prelude.Result.{Result, ok, err}
use artifact_controller.Toolkit.{Toolkit}
use artifact_controller.Calls.{Call, Trace}
use artifact_controller.Api.ArtifactClass.{ArtifactClass}
use artifact_controller.Store.{Observation, Driver, driver_for}
use artifact_controller.Controller.Session.{Cluster, Session, call}
use artifact_controller.Controller.Removal.{
  reconcile_delete, adoptable, release, deletion_blocked, delete_owned, delete_observed,
  delete_with, apply_deletion,
}
use artifact_controller.Controller.Existing.{stamp_of}
use artifact_controller.Controller.Safety.Deletion.{Guarded, Built, Ours, ours}

module _ (k : Toolkit) (c : Cluster) (ref : String) where
  -- The class that a trace ends with: the one named `ref`.
  pub record Got (class : ArtifactClass) (tr : Trace) : Type 0 where
    pub before : Trace
    pub calls : tr ≡ Call.get_class ref ∷ before
    pub got : c.get_class before ref ≡ ok class

  pub built :
      (class : ArtifactClass) (driver : Driver) (tr : Trace)
      → Got class tr
      → driver_for k c.registry tr class ≡ ok driver
      → Built k c ref class driver (Call.build_driver class.store.driver ∷ tr)
  built class driver tr g e = record {
    before = g.before;
    calls = ground (arith);
    got = g.got;
    built = ground (arith);
  }

  pub got :
      (class : ArtifactClass) (tr : Trace)
      → c.get_class tr ref ≡ ok class
      → Got class (Call.get_class ref ∷ tr)
  got class tr e = record { before = tr; calls = refl; got = e }

  delete_owned-Guarded :
      (driver : Driver) (key h : String) (s : Session k)
      → Ours k c ref h key s.trace
      → Guarded k c ref h s.trace
      → Guarded k c ref h (delete_owned k c driver key s).0.trace
  unfolding delete_owned release deletion_blocked
  delete_owned-Guarded driver key h s o x = ground arith

  delete_observed-Guarded :
      (class : ArtifactClass) (driver : Driver) (key : String) (obs : Observation) (s : Session k)
      → (obs.exists ≡ true
          → adoptable (stamp_of k class obs) s.obj.status.spec_hash ≡ true
          → Ours k c ref s.obj.status.spec_hash key s.trace)
      → Guarded k c ref s.obj.status.spec_hash s.trace
      → Guarded k c ref s.obj.status.spec_hash (delete_observed k c class driver key obs s).0.trace
  unfolding delete_observed release
  delete_observed-Guarded class driver key obs s o x =
      ground (arith, delete_owned-Guarded driver key s.obj.status.spec_hash s)

  delete_with-Guarded :
      (class : ArtifactClass) (d : Result Driver) (s : Session k)
      → ((driver : Driver) → d ≡ ok driver → Built k c ref class driver s.trace)
      → Guarded k c ref s.obj.status.spec_hash s.trace
      → Guarded k c ref s.obj.status.spec_hash (delete_with k c class d s).0.trace
  unfolding delete_with
  delete_with-Guarded class (err e) s b x = ground arith
  delete_with-Guarded class (ok driver) s b x = grind (
    arith,
    λ (obs : Observation).
        delete_observed-Guarded class driver s.obj.status.key obs
          (call (Call.observe s.obj.status.key) s),
    λ (obs : Observation).
        ours k c ref class driver s.obj.status.key s.obj.status.spec_hash s.trace obs
          (b driver refl),
  )

  apply_deletion-Guarded :
      (r : Result ArtifactClass) (s : Session k)
      → ((class : ArtifactClass) → r ≡ ok class → Got class s.trace)
      → Guarded k c ref s.obj.status.spec_hash s.trace
      → Guarded k c ref s.obj.status.spec_hash (apply_deletion k c r s).0.trace
  unfolding apply_deletion release
  apply_deletion-Guarded (err e) s g x = ground arith
  apply_deletion-Guarded (ok class) s g x =
      delete_with-Guarded class (driver_for k c.registry s.trace class)
        (call (Call.build_driver class.store.driver) s)
        (λ d e. built class d s.trace (g class refl) e) x

  pub reconcile_delete-Guarded :
      (s : Session k)
      → s.obj.spec.class_ref ≡ ref
      → Guarded k c ref s.obj.status.spec_hash s.trace
      → Guarded k c ref s.obj.status.spec_hash (reconcile_delete k c s).0.trace
  unfolding reconcile_delete release
  reconcile_delete-Guarded s q x = ground (
    arith,
    q,
    apply_deletion-Guarded (c.get_class s.trace ref) (call (Call.get_class ref) s)
        (λ class e. got class s.trace e) x,
  )
