-- ===== src/Tests/System.antt =====
-- The theorem on the components together, at a sensor whose class names the http driver.
use artifact_controller.Prelude.{true, refl, some, All, []}
use artifact_controller.Prelude.Result.{ok}
use artifact_controller.Api.ArtifactClass.{ArtifactClass}
use artifact_controller.Store.{new_registry}
use artifact_controller.Store.Http.{register_http}
use artifact_controller.Store.Http.Rebuilding.{state_after}
use artifact_controller.Store.Http.Sensing.{Senses}
use artifact_controller.Controller.Session.{Cluster}
use artifact_controller.Controller.Request.{reconcile_request}
use artifact_controller.Manager.Sensor.{reconcile_request-Senses}
use artifact_controller.Tests.Fixtures.{class, cluster_of, present, sensor, start}
use artifact_controller.Tests.Tools.{toolkit}
use artifact_controller.Tests.WebTools.{web, http_driver, http_spec}

abbrev http_class : ArtifactClass
http_class = record class { store = record class.store { driver = "http"; http = some http_spec } }

-- A cluster whose registry has the http driver.
abbrev cluster : Cluster
cluster = record (cluster_of present sensor) {
  registry = register_http toolkit web (λ calls. []) true new_registry;
  get_class = λ calls name. ok http_class;
}

reconcile_request-Senses_example :
    All
      (Senses toolkit web http_driver)
      (state_after toolkit web
        (λ calls. [])
        http_driver
        (reconcile_request toolkit cluster "default" "a" start).0.trace).log
reconcile_request-Senses_example =
    reconcile_request-Senses toolkit web (λ calls. []) http_driver (λ calls. tt) cluster "default"
      "a" start sensor refl refl tt
