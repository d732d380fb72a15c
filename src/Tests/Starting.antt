-- ===== src/Tests/Starting.antt =====
-- The theorem on permitted attempts at a new Artifact.
use artifact_controller.Prelude.{◌*◌, refl, arith, none}
use artifact_controller.Prelude.Int.{pos, second}
use artifact_controller.Api.Json.{Value, Object, close, entry}
use artifact_controller.Api.ArtifactClass.{GeneratorSpec, effective_backoff}
use artifact_controller.Generator.Render.{render_template, walk_members, render_leaf}
use artifact_controller.Store.{no_observation}
use artifact_controller.Controller.Session.{Cluster}
use artifact_controller.Controller.Create.{label_run}
use artifact_controller.Controller.Missing.{next_attempt}
use artifact_controller.Controller.Reconcile.{dispatch}
use artifact_controller.Controller.Safety.Creation.{MayAttempt}
use artifact_controller.Controller.Budget.Starting.{Begun, attempt_input, dispatch-Begun}
use artifact_controller.Tests.Fixtures.{class, cluster_of, artifact, session_of, input}
use artifact_controller.Tests.Tools.{toolkit}

abbrev cluster : Cluster
cluster = cluster_of no_observation artifact

-- The generator of the class.
abbrev generator : GeneratorSpec
generator = record {
  template = "{}";
  succeeded_when = "false";
  failed_when = "false";
  in_progress_when = "";
  progress_deadline = none;
}

-- What the template renders to, and the run with its name.
abbrev job : Object
job = entry "apiVersion" (Value.text "batch/v1") (entry "kind" (Value.text "Job") close)

abbrev named : Object
named =
    label_run toolkit cluster (attempt_input cluster input (session_of artifact))
      (session_of artifact) job

artifact-MayAttempt :
    MayAttempt toolkit cluster class (pos (1000 * second)) (session_of artifact).obj.status
unfolding effective_backoff next_attempt
artifact-MayAttempt = record { idle = refl; within = omega arith; due = tt }

dispatch-Begun_example : Begun cluster named (session_of artifact) (
    dispatch toolkit cluster class input (pos (1000 * second)) no_observation (session_of artifact))
unfolding render_template walk_members render_leaf
dispatch-Begun_example =
    dispatch-Begun cluster class generator input (pos (1000 * second)) no_observation
      (session_of artifact) job named named refl refl refl artifact-MayAttempt refl refl
      (λ calls. refl)
