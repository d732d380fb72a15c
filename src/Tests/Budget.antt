-- ===== src/Tests/Budget.antt =====
-- The theorems on attempts and failures at concrete inputs.
use Prim.Native.Nat.{min}
use artifact_controller.Prelude.{none, ◌≡◌, ◌⊎◌, ◌*◌, ◌^◌, All, arith}
use artifact_controller.Prelude.Int.{pos, second}
use artifact_controller.Store.{no_observation}
use artifact_controller.Controller.Session.{Session}
use artifact_controller.Controller.Reconcile.{dispatch}
use artifact_controller.Controller.Timing.{backoff_delay}
use artifact_controller.Controller.Timing.Backoff.{backoff_delay-eq-min}
use artifact_controller.Controller.Budget.Failures.{failures}
use artifact_controller.Controller.Budget.Dispatch.{Reset, Charged, dispatch-Charged}
use artifact_controller.Controller.Safety.Creation.{CreatesNothing, Permitted, dispatch-creates}
use artifact_controller.Api.ArtifactClass.{GeneratorSpec, Backoff, effective_backoff}
use artifact_controller.Api.Json.{close}
use artifact_controller.Generator.Evaluator.Caching.{nil-IsFaithful}
use artifact_controller.Controller.Evaluate.{evaluate_run}
use artifact_controller.Controller.Evaluate.Verdicts.{Judged, verdict}
use artifact_controller.Controller.Evaluate.Verdicts.Judging.{evaluate_run-Judged}
use artifact_controller.Tests.Fixtures.{class, cluster_of, in_flight, input, session_of}
use artifact_controller.Tests.Tools.{toolkit}

abbrev after : Session toolkit
after =
    (dispatch toolkit (cluster_of no_observation in_flight) class input (pos (1000 * second))
      no_observation (session_of in_flight)).0

dispatch-Charged_example :
    (failures after ≡ pos 0)
    ⊎ Reset (cluster_of no_observation in_flight) no_observation (session_of in_flight) after
    ⊎ Charged
        (cluster_of no_observation in_flight)
        class
        (pos (1000 * second))
        (session_of in_flight)
        after
unfolding effective_backoff
dispatch-Charged_example =
    dispatch-Charged (cluster_of no_observation in_flight) class input (pos (1000 * second))
      no_observation (session_of in_flight) (omega arith, omega arith) (omega arith, omega arith)

dispatch-creates_example :
    All CreatesNothing after.trace
    ⊎ Permitted toolkit
        (cluster_of no_observation in_flight)
        class
        no_observation
        (pos (1000 * second))
        (session_of in_flight)
dispatch-creates_example =
    dispatch-creates toolkit (cluster_of no_observation in_flight) class input (pos (1000 * second))
      no_observation (session_of in_flight) tt

-- The fourth failure of a class with the default backoff: 30 s, doubled three times.
backoff_delay-eq-min_example :
    backoff_delay (pos 4) (pos (30 * second)) (pos (1920 * second))
    ≡ pos (min (1920 * second) (30 * second * 2 ^ 3))
backoff_delay-eq-min_example =
    backoff_delay-eq-min 3 (30 * second) (1920 * second) (omega arith) (omega arith)

abbrev generator : GeneratorSpec
generator = record {
  template = "{}";
  succeeded_when = "true";
  failed_when = "false";
  in_progress_when = "";
  progress_deadline = none;
}

abbrev backoff : Backoff
backoff = record { max_attempts = pos 5; initial = pos (30 * second); max = pos (1920 * second) }

evaluate_run-Judged_example :
    Judged toolkit
      (verdict toolkit class generator close (pos (1000 * second)) in_flight)
      (pos (1000 * second))
      (session_of in_flight)
      (evaluate_run toolkit
        (cluster_of no_observation in_flight)
        class
        generator
        close
        (pos (1000 * second))
        backoff
        (session_of in_flight)).0
evaluate_run-Judged_example =
    evaluate_run-Judged toolkit (cluster_of no_observation in_flight) class generator close
      (pos (1000 * second)) backoff (session_of in_flight) (nil-IsFaithful toolkit)
