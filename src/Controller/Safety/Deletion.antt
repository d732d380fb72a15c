-- ===== src/Controller/Safety/Deletion.antt =====
-- Nothing is deleted from the store but an object that carries the Artifact's own stamp or none.
pub mod Requests
pub mod Generation
pub mod Finalizing
use artifact_controller.Prelude.{
  String, true, ◌≡◌, refl, arith, List, [], ◌∷◌, Option, none, some, if◌then◌else◌,
}
use artifact_controller.Prelude.Int.{ℤ}
use artifact_controller.Prelude.Result.{Result, ok, err}
use artifact_controller.Toolkit.{Toolkit, Input}
use artifact_controller.Calls.{Call, Trace}
use artifact_controller.Api.Artifact.{Artifact}
use artifact_controller.Api.ArtifactClass.{ArtifactClass}
use artifact_controller.Store.{Observation, Driver, driver_for}
use artifact_controller.Hash.{canonical}
use artifact_controller.Controller.Session.{Cluster, Session, call}
use artifact_controller.Controller.Existing.{stamp_of}
use artifact_controller.Controller.Removal.{
  adoptable, reconcile_expired, expire_observed, delete_expired, park_expired, reconcile_delete,
  release, deletion_blocked, delete_owned, delete_observed, delete_with, apply_deletion,
}

module _ (k : Toolkit) (c : Cluster) (ref : String) where
  -- The trace ends with the fetch of the class named `ref` and the construction of the driver from
  -- it.
  pub record Built (class : ArtifactClass) (driver : Driver) (tr : Trace) : Type 0 where
    pub before : Trace
    pub calls : tr ≡ Call.build_driver class.store.driver ∷ Call.get_class ref ∷ before
    pub got : c.get_class before ref ≡ ok class
    pub built : driver_for k c.registry (Call.get_class ref ∷ before) class ≡ ok driver

  -- The trace ends with an observation of the key, by the driver that its class gave, which found
  -- an object with the stamp `spec_hash` or with none.
  pub record Ours (spec_hash key : String) (tr : Trace) : Type 0 where
    pub class : ArtifactClass
    pub driver : Driver
    pub obs : Observation
    pub before : Trace
    pub last : tr ≡ Call.observe key ∷ before
    pub source : Built class driver before
    pub seen : driver.observe before key ≡ ok obs
    pub present : obs.exists ≡ true
    pub stamp : adoptable (stamp_of k class obs) spec_hash ≡ true

  -- Every deletion in the trace follows directly on such an observation of its key.
  abbrev pub Guarded : String → Trace → Type 0
  Guarded h [] = Unit
  Guarded h (Call.delete_object key ∷ tr) = Ours h key tr × Guarded h tr
  Guarded h (_ ∷ tr) = Guarded h tr

  module _ (class : ArtifactClass) (driver : Driver) (key h : String) (tr : Trace)
      (obs : Observation) where
    ours :
        Built class driver tr
        → driver.observe tr key ≡ ok obs
        → obs.exists ≡ true
        → adoptable (stamp_of k class obs) h ≡ true
        → Ours h key (Call.observe key ∷ tr)
    ours b e p a = record {
      class = class;
      driver = driver;
      obs = obs;
      before = tr;
      last = refl;
      source = b;
      seen = e;
      present = p;
      stamp = a;
    }

  delete_expired-Guarded :
      (driver : Driver) (key h : String) (after now : ℤ) (s : Session k)
      → Ours h key s.trace
      → Guarded h s.trace
      → Guarded h (delete_expired k c driver key after now s).0.trace
  unfolding delete_expired park_expired
  delete_expired-Guarded driver key h after now s o g = ground arith

  expire_observed-Guarded :
      (class : ArtifactClass) (driver : Driver) (key h : String) (after now : ℤ) (obs : Observation)
      (s : Session k)
      → (obs.exists ≡ true → adoptable (stamp_of k class obs) h ≡ true → Ours h key s.trace)
      → Guarded h s.trace
      → Guarded h (expire_observed k c class driver key h after now obs s).0.trace
  unfolding expire_observed park_expired
  expire_observed-Guarded class driver key h after now obs s o g =
      ground (arith, delete_expired-Guarded driver key h after now s)

  reconcile_expired-Guarded :
      (class : ArtifactClass) (driver : Driver) (key h : String) (after now : ℤ) (s : Session k)
      → Built class driver s.trace
      → Guarded h s.trace
      → Guarded h (reconcile_expired k c class driver key h after now s).0.trace
  unfolding reconcile_expired
  reconcile_expired-Guarded class driver key h after now s b g = grind (
    arith,
    λ (obs : Observation).
        expire_observed-Guarded class driver key h after now obs (call (Call.observe key) s),
    λ (obs : Observation). ours class driver key h s.trace obs b,
  )
