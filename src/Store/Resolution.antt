-- ===== src/Store/Resolution.antt =====
-- What the registry resolves after a registration.
use artifact_controller.Prelude.{
  String, ◌≡◌, ◌==◌, ◌⊎◌, inl, inr, Bool-cases, if◌then◌else◌, arith, eq_iff, some,
}
use artifact_controller.Prelude.Maps.{lookup, lookup-insert}
use artifact_controller.Toolkit.{Toolkit}
use artifact_controller.Calls.{Trace}
use artifact_controller.Api.ArtifactClass.{ArtifactClass}
use artifact_controller.Store.{Factory, Registry, register, driver_for}

module _ (k : Toolkit) (name : String) (f : Factory) (r : Registry) where
  -- After a registration a class with that driver gets the new factory, also where the name was
  -- taken before; a class with another driver that is registered gets the factory it got before.
  pub driver_for-register :
      (calls : Trace) (class : ArtifactClass) (g : Factory)
      → (class.store.driver ≡ name) ⊎ (lookup class.store.driver r.factories ≡ some g)
      → driver_for k (register name f r) calls class
        ≡ (if class.store.driver == name then f calls class else g calls class)
  unfolding driver_for register
  driver_for-register calls class g (inl e) =
      rw (lookup-insert name class.store.driver f r.factories, driver_for)
        (ground (arith, e, eq_iff name class.store.driver, eq_iff class.store.driver name))
  driver_for-register calls class g (inr e) = elim (Bool-cases (class.store.driver == name)) [
    | inl y ↦
        rw (lookup-insert name class.store.driver f r.factories, driver_for)
          (ground (arith, y, eq_iff name class.store.driver, eq_iff class.store.driver name))
    | inr n ↦ ground (
      arith,
      n,
      e,
      lookup-insert name class.store.driver f r.factories,
      eq_iff name class.store.driver,
      eq_iff class.store.driver name,
    )
  ]
