-- ===== src/Controller/Safety/Cancellation.antt =====
-- A run in flight is forgotten only when it is gone, and a retry token counts once.
pub mod Requests
pub mod Generators
use artifact_controller.Prelude.{String, true, ◌≡◌, ◌≢◌, ◌⊎◌, arith, Option, none, some, eq_iff}
use artifact_controller.Prelude.Maps.{get_text}
use artifact_controller.Prelude.Result.{Error, is_not_found}
use artifact_controller.Toolkit.{Toolkit, Input}
use artifact_controller.Calls.{Trace}
use artifact_controller.Api.Artifact.{GeneratorReference, observe_only, retry_annotation}
use artifact_controller.Api.ArtifactClass.{ArtifactClass}
use artifact_controller.Controller.Session.{Cluster, Session}
use artifact_controller.Controller.Run.{delete_abandoned_run}
use artifact_controller.Controller.Missing.{without_generator}
use artifact_controller.Controller.Reconcile.{honor_retry, cancel_for_observe}

-- A deletion that the API server confirms: done, or there was nothing to delete.
abbrev pub Confirms : Option Error → Type 0
Confirms none = Unit
Confirms (some e) = is_not_found e.kind ≡ true

module _ (k : Toolkit) (c : Cluster) where
  -- The reference is dropped after a confirmed deletion, or it stays and there is an error.
  abbrev pub Cancelled : GeneratorReference → Trace → Session k → Option Error → Type 0
  Cancelled ref tr r e =
      ((r.obj.status.generator_ref ≡ none) × (e ≡ none) × Confirms (c.delete_run tr ref))
      ⊎ ((r.obj.status.generator_ref ≡ some ref) × (e ≢ none))

  delete_abandoned_run-Confirms :
      (ref : GeneratorReference) (why : String) (s : Session k)
      → ((delete_abandoned_run k c ref why s).0.obj ≡ s.obj)
        × (((delete_abandoned_run k c ref why s).1 ≢ none)
            ⊎ (((delete_abandoned_run k c ref why s).1 ≡ none)
                × Confirms (c.delete_run s.trace ref)))
  unfolding delete_abandoned_run
  delete_abandoned_run-Confirms ref why s = ground arith

  -- Where the policy of an Artifact with a run in flight is Observe, the reference to the run is
  -- dropped only after the API server confirmed the deletion of the run; otherwise it stays, and
  -- there is an error.
  pub cancel_for_observe-Cancelled :
      (ref : GeneratorReference) (s : Session k)
      → s.obj.status.generator_ref ≡ some ref
      → observe_only s.obj ≡ true
      → Cancelled ref s.trace (cancel_for_observe k c s).0 (cancel_for_observe k c s).1
  unfolding cancel_for_observe
  cancel_for_observe-Cancelled ref s e h =
      grind (arith, delete_abandoned_run-Confirms ref "managementPolicy is Observe" s)

  -- A retry token is honoured once: doing it again changes nothing.
  pub honor_retry-idempotent :
      (s : Session k) → honor_retry k c (honor_retry k c s) ≡ honor_retry k c s
  unfolding honor_retry
  honor_retry-idempotent s = ground (
    arith,
    eq_iff (get_text retry_annotation s.obj.annotations)
        (get_text retry_annotation s.obj.annotations),
  )
