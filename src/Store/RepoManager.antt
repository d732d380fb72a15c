-- ===== src/Store/RepoManager.antt =====
-- internal/store/repomanager/repomanager.go: the drivers of Artifactory and Nexus.
pub mod Driver
pub mod Artifactory
pub mod Nexus
pub mod Observing
pub mod Credentials
use Prim.Native.String.{◌++◌}
use artifact_controller.Prelude.{
  ℕ, String, Bool, true, false, not, ◌==◌, ◌&&◌, ◌||◌, equal, Option, none, some, List, [], ◌∷◌,
  ◌*◌, if◌then◌else◌,
}
use artifact_controller.Prelude.Int.{ℤ, pos, ltb_ℤ, second}
use artifact_controller.Prelude.Maps.{Map, get_text}
use artifact_controller.Prelude.Result.{Error, Result, ok, err, errorf, map_error}
use artifact_controller.Api.ArtifactClass.{ArtifactClass, RepoManagerStoreSpec, stamp_metadata_key}
use artifact_controller.Toolkit.{Toolkit, Arg}
use artifact_controller.Calls.{Trace}
use artifact_controller.Store.{Observation, Factory, Registry, register}
use artifact_controller.Store.Adapter.{adapt}
use artifact_controller.Store.Http.{is_success}
use artifact_controller.Store.Metadata.{publish}
use artifact_controller.Web.{Web, Log, WebRequest, Reply, Event, max_body}
use artifact_controller.Web.Formats.{StorageInfo, NexusAsset}
use artifact_controller.Web.Io.{Io, ◌>>=◌, ◌>>◌, pure, raise, lift, call}
use artifact_controller.Web.Texts.{set_header, trim_newlines, trim_right, is_slash}
use artifact_controller.Store.RepoManager.Driver.{RepoDriver, Flavour, new_driver}
use artifact_controller.Store.RepoManager.Artifactory.{observe_artifactory, delete_artifactory}
use artifact_controller.Store.RepoManager.Nexus.{observe_nexus, delete_nexus}

module _ (k : Toolkit) (w : Web) where
  -- Observe
  unfoldable pub observe : RepoDriver → String → Io Log Observation
  observe d key = elim d.flavour [
    | Flavour.artifactory ↦ observe_artifactory k w d key
    | Flavour.nexus ↦ observe_nexus k w d key
  ]

  -- Delete
  unfoldable pub delete : RepoDriver → String → Io Log (Unit {0})
  delete d key = elim d.flavour [
    | Flavour.artifactory ↦ delete_artifactory k w d key
    | Flavour.nexus ↦ delete_nexus k w d key
  ]

  -- The factories of Register; building a driver may read its secret.
  unfoldable pub repo_factory : (Trace → Log) → Bool → Flavour → Factory
  repo_factory before has_secrets f tr class =
      elim (new_driver k w has_secrets class f (before tr)).0 [
        | err e ↦ err e
        | ok d ↦ ok (
            adapt (λ tr'. (new_driver k w has_secrets class f (before tr')).1) (observe d)
              (delete d))
      ]

  -- Register
  unfoldable pub register_repo_managers : (Trace → Log) → Bool → Registry → Registry
  register_repo_managers before has_secrets r =
      register "nexus" (repo_factory before has_secrets Flavour.nexus)
        (register "artifactory" (repo_factory before has_secrets Flavour.artifactory) r)
