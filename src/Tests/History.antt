-- ===== src/Tests/History.antt =====
-- The theorem on histories at a concrete history: a run is created, and then looked at.
use artifact_controller.Prelude.{String, ◌+◌, ◌≤◌, ◌≡◌, refl, arith, inl, inr, Bool-cases, ◌==◌}
use artifact_controller.Prelude.Maps.{get_text, lookup}
use artifact_controller.Prelude.Int.{sub_time, pos, ◌≤ℤ◌}
use artifact_controller.Prelude.Result.{ok}
use artifact_controller.Calls.{Trace}
use artifact_controller.Api.ArtifactClass.{ArtifactClass, effective_backoff, key_template}
use artifact_controller.Store.{no_observation, driver_for}
use artifact_controller.Controller.Session.{Cluster, Session}
use artifact_controller.Controller.Request.{handle}
use artifact_controller.Controller.Reconcile.{
  reconcile, reconcile_active, cancel_for_observe, honor_retry, note_generation, with_class,
  input_for, with_key, with_driver, observe_store, dispatch,
}
use artifact_controller.Controller.Missing.{
  reconcile_missing, note_absence, drive_generator, start_attempt, next_attempt,
}
use artifact_controller.Controller.Create.{create_run, submit_run, created, label_run}
use artifact_controller.Controller.Run.{ensure_generator_watch, is_watched}
use artifact_controller.Generator.Render.{
  render_key, render_string, render_template, walk_members, render_leaf,
}
use artifact_controller.Hash.{canonical}
use artifact_controller.Controller.Budget.Ledger.{created_runs, lost_runs}
use artifact_controller.Controller.Budget.Absence.{SeesNothing, IsPlain}
use artifact_controller.Controller.Budget.History.{IsNew, start, handled, between, created_runs-le}
use artifact_controller.Tests.Fixtures.{cluster_of, artifact, session_of}
use artifact_controller.Tests.Tools.{toolkit}

abbrev cluster : Cluster
cluster = cluster_of no_observation artifact

abbrev first : Session toolkit
first = (handle toolkit cluster (session_of artifact)).0

-- What the next request reads back.
abbrev reread : Session toolkit
reread = record first { obj = record artifact { status = first.obj.status } }

abbrev second : Session toolkit
second = (handle toolkit cluster reread).0

class-limit :
    (tr : Trace) (name : String) (cl : ArtifactClass)
    → cluster.get_class tr name ≡ ok cl
    → (effective_backoff cl).max_attempts ≤ℤ pos 5
unfolding effective_backoff
class-limit tr name cl e = ground (arith, e)

driver_for-SeesNothing :
    (tr : Trace) (cl : ArtifactClass) → SeesNothing (driver_for toolkit cluster.registry tr cl)
unfolding driver_for lookup
driver_for-SeesNothing history cl = elim (Bool-cases ("fake" == cl.store.driver)) [
  | inl e ↦ rw (e, SeesNothing) (λ t key. refl)
  | inr e ↦ rw (e, SeesNothing) tt
]

artifact-IsNew : IsNew (session_of artifact)
artifact-IsNew = record { quiet = refl; blameless = refl; idle = refl }

artifact-IsPlain : IsPlain artifact
unfolding get_text
artifact-IsPlain = record { managed = refl; lasting = refl; no_retry = inl refl }

reread-IsPlain : IsPlain reread.obj
unfolding get_text
reread-IsPlain = record { managed = refl; lasting = refl; no_retry = inl refl }

created_runs-le_example : created_runs cluster second.trace ≤ 5 + lost_runs cluster second.trace
created_runs-le_example =
    created_runs-le cluster 5 (omega arith) class-limit driver_for-SeesNothing artifact-IsNew (
      handled (between reread (handled start refl artifact-IsPlain) refl refl refl) refl
        reread-IsPlain)

-- The first of the two requests creates a run.
created_first : created_runs cluster first.trace ≡ 1
unfolding handle reconcile reconcile_active cancel_for_observe honor_retry get_text note_generation
    with_class render_key render_string key_template input_for canonical with_key with_driver
    driver_for observe_store dispatch reconcile_missing note_absence drive_generator start_attempt
    next_attempt create_run submit_run created render_template label_run ensure_generator_watch
    lookup effective_backoff is_watched sub_time walk_members render_leaf
created_first = refl
