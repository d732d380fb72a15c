-- ===== src/Tests/Wakeup.antt =====
-- The theorem on the next request at a concrete input.
use artifact_controller.Prelude.{true, ◌≡◌, ◌⊎◌, ◌*◌, arith}
use artifact_controller.Prelude.Int.{pos, second, ◌+ℤ◌}
use artifact_controller.Api.Artifact.{get_interval}
use artifact_controller.Api.ArtifactClass.{effective_backoff, grace_period}
use artifact_controller.Store.{no_observation}
use artifact_controller.Controller.Session.{Cluster}
use artifact_controller.Controller.Reconcile.{dispatch}
use artifact_controller.Controller.Wakeup.Delays.{Jitters}
use artifact_controller.Controller.Wakeup.Attempts.{Wakes}
use artifact_controller.Controller.Wakeup.Missing.{Calm, unrenderable}
use artifact_controller.Controller.Wakeup.Dispatch.{dispatch-Wakes}
use artifact_controller.Tests.Tools.{toolkit}
use artifact_controller.Tests.Fixtures.{class, cluster_of, in_flight, input, session_of}

abbrev cluster : Cluster
cluster = cluster_of no_observation in_flight

cluster-Jitters : Jitters cluster
cluster-Jitters = λ tr d h. ground (arith, h)

in_flight-Calm : Calm cluster cluster-Jitters class (pos (1000 * second)) (session_of in_flight)
unfolding get_interval effective_backoff grace_period ◌+ℤ◌
in_flight-Calm = record {
  interval = (omega arith, omega arith);
  backoff = ((omega arith, omega arith), (omega arith, omega arith));
  grace = (omega arith, omega arith);
  failed_before = tt;
  succeeded_before = tt;
}

dispatch-Wakes_example :
    Wakes cluster cluster-Jitters (
      dispatch toolkit cluster class input
        (pos (1000 * second))
        no_observation
        (session_of in_flight))
    ⊎ (unrenderable toolkit class.generator input (pos 1) ≡ true)
dispatch-Wakes_example =
    dispatch-Wakes cluster cluster-Jitters class input (pos (1000 * second)) no_observation
      (session_of in_flight) in_flight-Calm
