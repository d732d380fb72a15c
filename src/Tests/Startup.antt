-- ===== src/Tests/Startup.antt =====
-- The theorems on the start of the process at a concrete host.
use artifact_controller.Prelude.{String, ◌≡◌, refl, ◌==◌, if◌then◌else◌, none, some, [], ◌∷◌}
use artifact_controller.Prelude.Int.{pos}
use artifact_controller.Prelude.Maps.{Map}
use artifact_controller.Prelude.Result.{Result, ok, err, errorf}
use artifact_controller.Api.Artifact.{Artifact}
use artifact_controller.Store.Fake.{new_store}
use artifact_controller.Controller.Setup.{
  Manager, Reconciler, class_index, setup_with_manager, with_defaults, artifacts_for_class,
}
use artifact_controller.Controller.Setup.Wiring.{
  IndexLaws, indexed, Wired, setup_with_manager-Wired,
}
use artifact_controller.Manager.{Before, controller_namespace}
use artifact_controller.Manager.Startup.{Host, default_flags, registry}
use artifact_controller.Manager.Started.{with_get, registry-confined}
use artifact_controller.Tests.Fixtures.{artifact, class}
use artifact_controller.Tests.Tools.{toolkit}
use artifact_controller.Tests.WebTools.{web, remote, sdk}

abbrev other : Artifact
other = record artifact { name = "b"; spec = record artifact.spec { class_ref = "images" } }

-- A manager whose cache has two Artifacts of different classes.
abbrev manager : Manager
manager = record {
  Controller = String;
  Cache = String;
  Mapper = String;
  time_now = λ calls. pos 0;
  index_field = λ key index. none;
  list_matching = λ key value. ok (indexed class_index value (artifact ∷ other ∷ []));
  build = λ options. ok "controller";
  cache = "cache";
  rest_mapper = "mapper";
}

manager-IndexLaws : IndexLaws manager class_index
manager-IndexLaws = record { cached = artifact ∷ other ∷ []; listed = λ value. refl }

abbrev bare : Reconciler manager
bare = record {
  now = none;
  field_owner = "";
  max_concurrent_reconciles = pos 0;
  controller = none;
  cache = none;
  mapper = none;
}

abbrev set_up : Reconciler manager
set_up = record {
  now = some manager.time_now;
  field_owner = "artifact-controller";
  max_concurrent_reconciles = pos 0;
  controller = some "controller";
  cache = some "cache";
  mapper = some "mapper";
}

setup_with_manager-Wired_example : Wired toolkit manager manager-IndexLaws set_up
unfolding setup_with_manager with_defaults
setup_with_manager-Wired_example =
    setup_with_manager-Wired toolkit manager manager-IndexLaws bare set_up refl

-- A change of the class wakes the one Artifact that refers to it.
woken : artifacts_for_class manager class ≡ ("default", "a") ∷ []
unfolding artifacts_for_class
woken = refl

abbrev before : Before
before = record { web = λ calls. []; remote = λ calls. []; sdk = λ calls. [] }

-- Every step succeeds; the secrets are those of the controller's namespace.
abbrev host : Host
host = record {
  add_client_scheme = none;
  add_artifacts_scheme = none;
  new_manager = λ options. ok manager;
  new_env = ok tt;
  add_healthz = none;
  add_readyz = none;
  start = none;
  get_secret = λ namespace name. ok (("token", namespace) ∷ []);
  pod_namespace = "artifact-system";
  namespace_file = err (errorf "no file");
}

-- Another cluster, with a secret in the controller's namespace only.
abbrev other_get : String → String → Result (Map String)
other_get namespace name =
    if namespace == "artifact-system" then ok (("token", namespace) ∷ []) else err (errorf "denied")

registry-confined_example :
    registry toolkit web remote sdk before
      (λ calls. new_store)
      (with_get host other_get)
      default_flags
    ≡ registry toolkit web remote sdk before (λ calls. new_store) host default_flags
unfolding controller_namespace
registry-confined_example =
    registry-confined toolkit web remote sdk before (λ calls. new_store) host default_flags
      other_get (λ name. refl)
