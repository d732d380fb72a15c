-- ===== src/Tests/Arrival.antt =====
-- The theorem on a whole request, with the in-memory store and an upload in it.
use artifact_controller.Prelude.{String, ◌≡◌, refl, inl, []}
use artifact_controller.Prelude.Maps.{get_text, lookup, insert}
use artifact_controller.Prelude.Result.{ok}
use artifact_controller.Calls.{Call, Trace}
use artifact_controller.Hash.{canonical}
use artifact_controller.Api.ArtifactClass.{key_template, stamp_metadata_key}
use artifact_controller.Generator.Render.{render_key, render_string}
use artifact_controller.Store.{Driver, new_registry, driver_for, register}
use artifact_controller.Store.Fake.{
  FakeStore, new_store, put, register_fake, fake_factory, copy_map,
}
use artifact_controller.Store.Fake.{observe as shown, delete as deleted}
use artifact_controller.Controller.Session.{Cluster}
use artifact_controller.Controller.Existing.{drifted, stamp_of}
use artifact_controller.Controller.Reconcile.{input_for}
use artifact_controller.Controller.Request.{opened}
use artifact_controller.Controller.Readiness.Arrival.{Delivers, Awaits, reconcile_request-Delivers}
use artifact_controller.Tests.Fixtures.{class, cluster_of, artifact, present, start}
use artifact_controller.Tests.Tools.{toolkit, toolkit-ConditionLaws}

abbrev key : String
key = canonical toolkit artifact.spec.identity

-- The store after an upload without a stamp.
abbrev store : FakeStore
store = put key "d1" [] new_store

abbrev cluster : Cluster
cluster = record (cluster_of present artifact) {
  registry = register_fake (λ calls. store) new_registry;
}

abbrev driver : Driver
driver = record { observe = λ calls k. ok (shown store k); delete = λ calls k. (deleted k store).1 }

driver-built : (calls : Trace) → driver_for toolkit cluster.registry calls class ≡ ok driver
unfolding driver_for lookup insert register_fake register new_registry fake_factory
driver-built calls = refl

driver-observed : (calls : Trace) → driver.observe calls key ≡ ok present
unfolding shown put lookup insert copy_map new_store canonical
driver-observed calls = refl

artifact-Awaits :
    Awaits toolkit-ConditionLaws cluster class present key
      (opened toolkit start artifact (Call.get_artifact "default" "a"))
unfolding render_key render_string key_template input_for canonical stamp_of stamp_metadata_key
    get_text lookup drifted
artifact-Awaits = record {
  alive = refl;
  anchored = refl;
  active = refl;
  plain = record { managed = refl; lasting = refl; no_retry = inl refl };
  endless = refl;
  rendered = refl;
  own = refl;
  undrifted = refl;
}

reconcile_request-Delivers_example :
    Delivers toolkit-ConditionLaws cluster class present driver key driver-built driver-observed
      refl "demo"
      (λ calls. refl)
      "default"
      "a"
      start
      artifact
reconcile_request-Delivers_example =
    reconcile_request-Delivers toolkit-ConditionLaws cluster class present driver key driver-built
      driver-observed refl "demo" (λ calls. refl) "default" "a" start artifact refl (λ tr o. refl)
      refl artifact-Awaits
