-- ===== src/Manager/Sensor.antt =====
-- A sensor on the http driver: the controller, the registry and the driver together.
use artifact_controller.Prelude.{String, true, ◌≡◌, [], ◌∷◌, All}
use artifact_controller.Prelude.Result.{ok}
use artifact_controller.Toolkit.{Toolkit}
use artifact_controller.Calls.{Call, Trace}
use artifact_controller.Api.Artifact.{Artifact, observe_only}
use artifact_controller.Web.{Web, Log}
use artifact_controller.Store.Adapter.{replay}
use artifact_controller.Store.Http.State.{HttpDriver}
use artifact_controller.Store.Http.Rebuilding.{state_after}
use artifact_controller.Store.Http.Sensing.{Senses, observe-Senses}
use artifact_controller.Controller.Session.{Cluster}
use artifact_controller.Controller.Request.{Memory, reconcile_request}
use artifact_controller.Controller.Safety.Sensor.{WritesNothing, reconcile_request-WritesNothing}

module _ (k : Toolkit) (w : Web) (before : Trace → Log) (d : HttpDriver)
    (quiet : (tr : Trace) → All (Senses k w d) (before tr)) where
  -- Calls that delete no object make the driver send observations and token requests only.
  state_after-Senses :
      (tr : Trace) → All WritesNothing tr → All (Senses k w d) (state_after k w before d tr).log
  unfolding replay
  state_after-Senses [] h = quiet []
  state_after-Senses (Call.build_driver name ∷ tr) h = quiet tr
  state_after-Senses (Call.observe key ∷ tr) h =
      observe-Senses k w d key (state_after k w before d tr) (state_after-Senses tr h.1)
  state_after-Senses (Call.delete_object key ∷ tr) h = absurd h.0
  state_after-Senses (a ∷ tr) h = state_after-Senses tr h.1

  -- All that an http driver sends in the course of a request for an observe-only Artifact is the
  -- observation that the class configures, with what its authorization adds, and requests of a
  -- token: the deletion that the class configures is never sent, whatever the store answers. This
  -- holds where the driver was built with a log of such calls.
  pub reconcile_request-Senses :
      (c : Cluster) (namespace name : String) (m : Memory k) (obj : Artifact)
      → c.get_artifact m.trace namespace name ≡ ok obj
      → observe_only obj ≡ true
      → All WritesNothing m.trace
      → All
          (Senses k w d)
          (state_after k w before d (reconcile_request k c namespace name m).0.trace).log
  reconcile_request-Senses c namespace name m obj e o q =
      state_after-Senses (reconcile_request k c namespace name m).0.trace
        (reconcile_request-WritesNothing k c namespace name m obj e o q)
