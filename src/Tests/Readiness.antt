-- ===== src/Tests/Readiness.antt =====
-- The theorems on readiness at concrete inputs.
use artifact_controller.Prelude.{refl, true, false, [], ◌∷◌, ◌≡◌, ◌⊎◌, ◌*◌}
use artifact_controller.Prelude.Int.{pos, second}
use artifact_controller.Controller.Reconcile.{dispatch}
use artifact_controller.Controller.Existing.{stamp_of, drifted}
use artifact_controller.Controller.Removal.{adoptable}
use artifact_controller.Api.ArtifactClass.{stamp_metadata_key}
use artifact_controller.Prelude.Maps.{get_text, lookup}
use artifact_controller.Controller.Readiness.Soundness.{
  is_ready, Unproven, Verified, dispatch-Verified,
}
use artifact_controller.Controller.Readiness.Existing.{Conflict, regenerates, dispatch-Conflict}
use artifact_controller.Controller.Session.{Session}
use artifact_controller.Controller.Readiness.Steady.{Recorded, again, dispatch-Steady}
use artifact_controller.Tests.Fixtures.{
  class, cluster_of, present, foreign, artifact, input, session_of,
}
use artifact_controller.Tests.Tools.{toolkit, toolkit-ConditionLaws}

foreign-stamp : adoptable (stamp_of toolkit class foreign) "sha256:own" ≡ false
unfolding stamp_of stamp_metadata_key get_text lookup
foreign-stamp = refl

no-stamp : adoptable (stamp_of toolkit class present) "sha256:own" ≡ true
unfolding stamp_of stamp_metadata_key get_text lookup
no-stamp = refl

not-drifted :
    regenerates toolkit (cluster_of present artifact) class present (session_of artifact) ≡ false
unfolding drifted
not-drifted = refl

dispatch-Verified_example :
    Verified toolkit-ConditionLaws
      (cluster_of present artifact)
      class
      input
      (pos (1000 * second))
      present
      (dispatch toolkit
        (cluster_of present artifact)
        class
        input
        (pos (1000 * second))
        present
        (session_of artifact)).0
    ⊎ Unproven (is_ready (session_of artifact)) (
        dispatch toolkit
          (cluster_of present artifact)
          class
          input
          (pos (1000 * second))
          present
          (session_of artifact))
dispatch-Verified_example =
    dispatch-Verified toolkit-ConditionLaws (cluster_of present artifact) class input
      (pos (1000 * second)) present (session_of artifact)

dispatch-Conflict_example :
    Conflict toolkit-ConditionLaws
      (cluster_of foreign artifact)
      (session_of artifact)
      (dispatch toolkit
        (cluster_of foreign artifact)
        class
        input
        (pos (1000 * second))
        foreign
        (session_of artifact)).0
dispatch-Conflict_example =
    dispatch-Conflict toolkit-ConditionLaws (cluster_of foreign artifact) class input
      (pos (1000 * second)) foreign (session_of artifact) refl foreign-stamp

abbrev verified : Session toolkit
verified =
    (dispatch toolkit (cluster_of present artifact) class input (pos (1000 * second)) present
      (session_of artifact)).0

abbrev verified_twice_more : Session toolkit
verified_twice_more =
    again toolkit-ConditionLaws (cluster_of present artifact) class input present
      (pos (1002 * second) ∷ pos (1001 * second) ∷ []) verified

dispatch-Steady_example :
    Recorded toolkit-ConditionLaws (cluster_of present artifact) present verified_twice_more
    × (verified_twice_more.trace ≡ verified.trace)
dispatch-Steady_example =
    dispatch-Steady toolkit-ConditionLaws (cluster_of present artifact) class input
      (pos (1000 * second)) present (pos (1002 * second) ∷ pos (1001 * second) ∷ [])
      (session_of artifact) refl no-stamp not-drifted
