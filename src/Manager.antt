-- ===== src/Manager.antt =====
-- cmd/main.go: the registry that the process gives its reconciler, the namespace of secrets, and the
-- secret resolver.
pub mod Drivers
pub mod Startup
pub mod Started
pub mod Sensor
use artifact_controller.Prelude.{String, Bool, true, ◌==◌, List, if◌then◌else◌}
use artifact_controller.Prelude.Maps.{Map}
use artifact_controller.Prelude.Result.{Result, ok, err}
use artifact_controller.Toolkit.{Toolkit}
use artifact_controller.Calls.{Trace}
use artifact_controller.Store.{Registry, new_registry}
use artifact_controller.Store.Fake.{FakeStore, register_fake}
use artifact_controller.Store.Http.{register_http}
use artifact_controller.Store.RepoManager.{register_repo_managers}
use artifact_controller.Store.Ami.{register_ami}
use artifact_controller.Store.Oci.{register_oci}
use artifact_controller.Store.Oci.Client.{Remote, Calls}
use artifact_controller.Store.S3.{Sdk, S3Call, register_s3}
use artifact_controller.Web.{Web, Log}

-- The calls of each library before a driver is built.
pub record Before : Type 0 where
  pub web : Trace → Log
  pub remote : Trace → Calls
  pub sdk : Trace → List S3Call

-- The registry of main; the secret resolver is there.
unfoldable pub driver_registry :
    Toolkit → Web → Remote → Sdk → Before → (Trace → FakeStore) → Bool → Registry
driver_registry k w r sdk before store enable_fake_store =
    let built = register_repo_managers k w before.web true (
      register_http k w before.web true (
        register_ami k w before.web
          (register_oci k r before.remote (register_s3 k sdk before.sdk new_registry)))) in
    if enable_fake_store then register_fake store built else built

-- controllerNamespace, from the environment variable and the content of the file.
unfoldable pub controller_namespace : Toolkit → String → Result String → String
controller_namespace k pod_namespace (err e) =
    if pod_namespace == "" then "artifact-system" else pod_namespace
controller_namespace k pod_namespace (ok content) =
    if pod_namespace == ""
    then if k.trim_space content == "" then "artifact-system" else k.trim_space content
    else pod_namespace

-- The secret resolver, over the Get of a secret by namespace and name.
unfoldable pub secret_resolver :
    (String → String → Result (Map String)) → String → String → Result (Map String)
secret_resolver get_secret namespace name = get_secret namespace name
