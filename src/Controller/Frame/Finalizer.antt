-- ===== src/Controller/Frame/Finalizer.antt =====
-- The finalizer: it is there before the controller does anything outside, and it goes with the
-- first deletion that succeeds.
use artifact_controller.Prelude.{Bool, true, not, ◌≡◌, ◌⊎◌, arith, none, some, is_none}
use artifact_controller.Prelude.Int.{ℤ, pos}
use artifact_controller.Prelude.Result.{Result, ok, err}
use artifact_controller.Toolkit.{Toolkit, FinalizerLaws}
use artifact_controller.Api.Artifact.{artifact_finalizer}
use artifact_controller.Api.ArtifactClass.{ArtifactClass}
use artifact_controller.Store.{Driver}
use artifact_controller.Controller.Session.{Cluster, Session, Outcome}
use artifact_controller.Controller.Removal.{
  reconcile_delete, apply_deletion, delete_with, delete_observed, delete_owned, deletion_blocked,
  release,
}
use artifact_controller.Controller.Request.{handle}
use artifact_controller.Controller.Frame.Attempts.{SameButStatus}
use artifact_controller.Controller.Frame.Requests.{reconcile-frame}

module _ {k : Toolkit} where
  abbrev pub anchored : Session k → Bool
  anchored s = k.contains_finalizer s.obj.finalizers artifact_finalizer

module _ {k : Toolkit} (laws : FinalizerLaws k) (c : Cluster) where
  -- The first request only adds the finalizer: nothing else of the session changes, the Artifact,
  -- its status, the calls and the events included, and the next request comes in 10 ms.
  pub record Anchors (s : Session k) (r : Session k × Outcome) : Type 0 where
    pub added : anchored r.0 ≡ true
    pub only : r.0 ≡ record s {
      obj = record s.obj { finalizers = k.add_finalizer s.obj.finalizers artifact_finalizer };
    }
    pub soon : r.1 ≡ record { requeue_after = pos 10000000; error = none }

  -- While an Artifact is not being deleted, either it has the finalizer and the handler changes
  -- nothing of it but the status, or the handler adds the finalizer and does nothing else: all else
  -- of the Artifact stays, no call is made, and the next request comes in 10 ms.
  pub handle-Anchors :
      (s : Session k)
      → s.obj.deletion_timestamp ≡ none
      → ((anchored s ≡ true) × SameButStatus s.obj (handle k c s).0.obj) ⊎ Anchors s (handle k c s)
  unfolding handle
  handle-Anchors s h =
      ground (arith, reconcile-frame c s, laws.contains-add s.obj.finalizers artifact_finalizer)

  -- The finalizer is off exactly where there is no error.
  abbrev Releases : Session k × Outcome → Type 0
  Releases r = anchored r.0 ≡ not (is_none r.1.error)

  release-Releases : (s : Session k) → Releases (release k c s)
  unfolding release
  release-Releases s = laws.contains-remove s.obj.finalizers artifact_finalizer

  delete_with-Releases :
      (class : ArtifactClass) (r : Result Driver) (s : Session k)
      → anchored s ≡ true
      → Releases (delete_with k c class r s)
  unfolding delete_with delete_observed delete_owned deletion_blocked
  delete_with-Releases class (ok driver) s h = grind (arith, release-Releases)
  delete_with-Releases class (err e) s h = ground arith

  apply_deletion-Releases :
      (r : Result ArtifactClass) (s : Session k)
      → anchored s ≡ true
      → Releases (apply_deletion k c r s)
  unfolding apply_deletion
  apply_deletion-Releases (ok class) s h = grind (arith, delete_with-Releases)
  apply_deletion-Releases (err e) s h = grind (arith, release-Releases)

  -- A request for an Artifact that is being deleted and has the finalizer takes the finalizer off
  -- if and only if it ends without an error: a deletion that fails is tried again.
  pub handle-Releases :
      (s : Session k) (t : ℤ)
      → s.obj.deletion_timestamp ≡ some t
      → anchored s ≡ true
      → anchored (handle k c s).0 ≡ not (is_none (handle k c s).1.error)
  unfolding handle reconcile_delete
  handle-Releases s t e h = grind (arith, apply_deletion-Releases, release-Releases s)
