-- ===== src/Tests/Safety.antt =====
-- The safety theorems at concrete inputs.
use artifact_controller.Prelude.{String, refl, All, inl}
use artifact_controller.Store.{no_observation, new_registry, driver_for}
use artifact_controller.Controller.Request.{handle, reconcile_request}
use artifact_controller.Controller.Safety.Sensor.{WritesNothing, reconcile_request-WritesNothing}
use artifact_controller.Controller.Safety.Deletion.{Guarded}
use artifact_controller.Controller.Safety.Deletion.Requests.{own_stamp, reconcile_request-Guarded}
use artifact_controller.Prelude.Maps.{lookup, get_text}
use artifact_controller.Hash.{canonical}
use artifact_controller.Api.ArtifactClass.{key_template}
use artifact_controller.Generator.Render.{render_key, render_string}
use artifact_controller.Controller.Session.{Cluster}
use artifact_controller.Controller.Reconcile.{input_for}
use artifact_controller.Controller.Safety.Outage.{Unanswered, Due, Survives, handle-Survives}
use artifact_controller.Tests.Fixtures.{
  class, session_of, artifact, cluster_of, sensor, overdue, present, start,
}
use artifact_controller.Tests.Tools.{toolkit, toolkit-ConditionLaws}

reconcile_request-WritesNothing_example :
    All WritesNothing
      (reconcile_request toolkit (cluster_of no_observation sensor) "default" "a" start).0.trace
reconcile_request-WritesNothing_example =
    reconcile_request-WritesNothing toolkit (cluster_of no_observation sensor) "default" "a" start
      sensor refl refl tt

reconcile_request-Guarded_example :
    Guarded toolkit
      (cluster_of present overdue)
      overdue.spec.class_ref
      (own_stamp toolkit (cluster_of present overdue) overdue)
      (reconcile_request toolkit (cluster_of present overdue) "default" "a" start).0.trace
reconcile_request-Guarded_example =
    reconcile_request-Guarded toolkit (cluster_of present overdue) "default" "a" start overdue refl
      tt

-- A cluster without drivers.
abbrev bare : Cluster
bare = record (cluster_of present artifact) { registry = new_registry }

abbrev artifact_key : String
artifact_key = canonical toolkit artifact.spec.identity

artifact-Due : Due toolkit-ConditionLaws bare class artifact_key (session_of artifact)
unfolding render_key render_string key_template input_for canonical get_text
artifact-Due = record {
  alive = refl;
  anchored = refl;
  active = refl;
  kept_policy = inl refl;
  no_retry = inl refl;
  lives = refl;
  found = refl;
  rendered = refl;
}

handle-Survives_example :
    Survives toolkit-ConditionLaws bare class artifact_key
      (session_of artifact)
      (handle toolkit bare (session_of artifact))
unfolding driver_for lookup new_registry
handle-Survives_example =
    handle-Survives toolkit-ConditionLaws bare class artifact_key (session_of artifact) artifact-Due
      (Unanswered.no_driver _ refl)
