-- ===== src/Tests/Lifecycle.antt =====
-- The theorems on finalizers, deletion, cancellation and retries at concrete inputs.
use artifact_controller.Prelude.{refl, none, true, not, is_none, ◌≡◌, ◌⊎◌, ◌*◌}
use artifact_controller.Prelude.Int.{pos, second}
use artifact_controller.Store.{no_observation, driver_for}
use artifact_controller.Controller.Request.{opened, handle, reconcile_request}
use artifact_controller.Calls.{Call}
use artifact_controller.Controller.Removal.{
  reconcile_delete, apply_deletion, delete_with, delete_observed, delete_owned, release,
  deletion_blocked,
}
use artifact_controller.Controller.Existing.{stamp_of}
use artifact_controller.Api.ArtifactClass.{ArtifactClass, stamp_metadata_key}
use artifact_controller.Prelude.Maps.{lookup, get_text}
use artifact_controller.Controller.Frame.Attempts.{SameButStatus}
use artifact_controller.Controller.Frame.Finalizer.{
  anchored, Anchors, handle-Anchors, handle-Releases,
}
use artifact_controller.Controller.Safety.Release.{Orphaned, DealtByClass, handle-Dealt}
use artifact_controller.Controller.Safety.Cancellation.Generators.{Abandons, dispatch-Abandons}
use artifact_controller.Controller.Missing.{note_absence}
use artifact_controller.Controller.Reconcile.{dispatch}
use artifact_controller.Controller.Safety.Cancellation.Requests.{Settles, reconcile_request-Settles}
use artifact_controller.Tests.Fixtures.{
  cluster_of, present, artifact, leaving, flipped, in_flight, in_flight_ref, class, input,
  session_of, start,
}
use artifact_controller.Tests.Tools.{toolkit, toolkit-FinalizerLaws, toolkit-ConditionLaws}

handle-Anchors_example :
    ((anchored (session_of artifact) ≡ true)
      × SameButStatus artifact
          (handle toolkit (cluster_of present artifact) (session_of artifact)).0.obj)
    ⊎ Anchors toolkit-FinalizerLaws
        (cluster_of present artifact)
        (session_of artifact)
        (handle toolkit (cluster_of present artifact) (session_of artifact))
handle-Anchors_example =
    handle-Anchors toolkit-FinalizerLaws (cluster_of present artifact) (session_of artifact) refl

handle-Releases_example :
    anchored (handle toolkit (cluster_of present leaving) (session_of leaving)).0
    ≡ not (is_none (handle toolkit (cluster_of present leaving) (session_of leaving)).1.error)
handle-Releases_example =
    handle-Releases toolkit-FinalizerLaws (cluster_of present leaving) (session_of leaving)
      (pos (950 * second)) refl refl

leaving-handled : (handle toolkit (cluster_of present leaving) (session_of leaving)).1.error ≡ none
unfolding handle reconcile_delete apply_deletion delete_with delete_observed delete_owned release
    driver_for lookup stamp_of stamp_metadata_key get_text deletion_blocked
leaving-handled = refl

handle-Dealt_example :
    Orphaned toolkit (cluster_of present leaving) (session_of leaving)
    ⊎ DealtByClass toolkit (cluster_of present leaving) (session_of leaving)
handle-Dealt_example =
    handle-Dealt toolkit (cluster_of present leaving) (session_of leaving) (pos (950 * second)) refl
      refl refl leaving-handled

reconcile_request-Settles_example :
    Settles toolkit
      (cluster_of no_observation flipped)
      in_flight_ref
      (opened toolkit start flipped (Call.get_artifact "default" "a"))
      (reconcile_request toolkit (cluster_of no_observation flipped) "default" "a" start)
reconcile_request-Settles_example =
    reconcile_request-Settles toolkit (cluster_of no_observation flipped) "default" "a" start
      flipped in_flight_ref refl refl refl refl refl refl

-- A class that lost its generator.
abbrev bare_class : ArtifactClass
bare_class = record class { generator = none }

dispatch-Abandons_example :
    Abandons toolkit-ConditionLaws
      (cluster_of no_observation in_flight)
      (note_absence toolkit
        (cluster_of no_observation in_flight)
        input
        (session_of in_flight)).trace
      in_flight_ref
      (session_of in_flight)
      (dispatch toolkit
        (cluster_of no_observation in_flight)
        bare_class
        input
        (pos (1000 * second))
        no_observation
        (session_of in_flight))
dispatch-Abandons_example =
    dispatch-Abandons toolkit-ConditionLaws (cluster_of no_observation in_flight) bare_class input
      (pos (1000 * second)) no_observation in_flight_ref (session_of in_flight) refl refl refl refl
