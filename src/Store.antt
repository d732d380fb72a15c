-- ===== src/Store.antt =====
-- internal/store/store.go: observations, the driver contract and the registry of drivers.
pub mod Names
pub mod Fake
pub mod Resolution
pub mod Adapter
pub mod Metadata
pub mod Http
pub mod RepoManager
pub mod Ami
pub mod Oci
pub mod S3
use Prim.Native.Nat.{Ordering}
use Prim.Native.String.{compare}
use artifact_controller.Prelude.{String, Bool, true, false, Option, none, some, List, [], ◌∷◌, map}
use artifact_controller.Prelude.Maps.{lookup, insert}
use artifact_controller.Prelude.Result.{Error, Result, ok, err, errorf}
use artifact_controller.Api.ArtifactClass.{ArtifactClass}
use artifact_controller.Toolkit.{Toolkit, Arg}
use artifact_controller.Calls.{Trace}
use artifact_controller.Store.Names.{sort, join}

pub record Observation : Type 0 where
  pub exists : Bool
  pub digest : String
  pub metadata : List (String × String)

-- store.Observation{}
abbrev pub no_observation : Observation
no_observation = record { exists = false; digest = ""; metadata = [] }

-- Observe and Delete, after the calls made so far.
pub record Driver : Type 0 where
  pub observe : Trace → String → Result Observation
  pub delete : Trace → String → Option Error

abbrev pub Factory : Type 0
Factory = Trace → ArtifactClass → Result Driver

pub record Registry : Type 0 where
  pub factories : List (String × Factory)

unfoldable pub new_registry : Registry
new_registry = record { factories = [] }

unfoldable pub register : String → Factory → Registry → Registry
register name f r = record { factories = insert name f r.factories }

-- The sorted names of all registered drivers.
unfoldable pub registered : Registry → List String
registered r = sort (map (λ (e : String × Factory). e.0) r.factories)

-- DriverFor resolves the driver of a class.
unfoldable pub driver_for : Toolkit → Registry → Trace → ArtifactClass → Result Driver
driver_for k r tr class = elim (lookup class.store.driver r.factories) [
  | none ↦ err (
      errorf (
        k.sprintf "no store driver registered for %q (available: %s)"
          (Arg.text class.store.driver ∷ Arg.text (join ", " (registered r)) ∷ [])))
  | some f ↦ f tr class
]
