-- ===== src/Tests/Recovery.antt =====
-- The theorem on a lost status update at a concrete cluster, which keeps the first run.
use artifact_controller.Prelude.{◌≡◌, ◌≢◌, refl, arith, none, [], ◌∷◌}
use artifact_controller.Prelude.Result.{Result, ErrorKind, ok, err}
use artifact_controller.Calls.{Call, Trace}
use artifact_controller.Api.Json.{Object}
use artifact_controller.Api.ArtifactClass.{GeneratorSpec}
use artifact_controller.Store.{no_observation}
use artifact_controller.Controller.Session.{Cluster, Session}
use artifact_controller.Controller.Create.{create_run, submit_run, created, label_run}
use artifact_controller.Controller.Run.{ensure_generator_watch, is_watched}
use artifact_controller.Generator.Render.{render_template, walk_members, render_leaf}
use artifact_controller.Prelude.Maps.{insert}
use artifact_controller.Controller.Budget.Ledger.{created_runs}
use artifact_controller.Controller.Safety.Recovery.{Stands, accepted, since, ObjectLaws, RunLaws}
use artifact_controller.Controller.Safety.Recovery.Creating.{create_run-recovers}
use artifact_controller.Tests.Fixtures.{cluster_of, artifact, session_of, input}
use artifact_controller.Tests.Tools.{toolkit}

-- The first run that a trace created.
abbrev first_run : Trace → Result Object
first_run [] = err (record { kind = ErrorKind.not_found; text = "" })
first_run (Call.create_run run ∷ tr) = elim (first_run tr) [ ok r ↦ ok r | err e ↦ ok run ]
first_run (_ ∷ tr) = first_run tr

abbrev cluster : Cluster
cluster = record (cluster_of no_observation artifact) {
  get_run = λ tr ref. first_run tr;
  create_run = λ tr run. elim (first_run tr) [
    | ok r ↦ err (record { kind = ErrorKind.already_exists; text = "" })
    | err e ↦ ok run
  ];
}

Stands-first_run :
    {run stored : Object} {tr : Trace} → Stands cluster run stored tr → first_run tr ≡ ok stored
Stands-first_run (accepted {tr = tr} e) = ground (arith, e)
Stands-first_run (since {tr = tr} a h x) = ground (arith, Stands-first_run x)

toolkit-ObjectLaws : ObjectLaws toolkit
toolkit-ObjectLaws = record {
  name-set = λ run name namespace labels. (refl, refl);
  owner-kept = λ obj run owned e. ground (arith, e);
}

cluster-RunLaws : RunLaws toolkit cluster
cluster-RunLaws = record {
  owner-stored = λ tr run stored obj e. refl;
  name-taken = λ tr run stored x. (
    record { kind = ErrorKind.already_exists; text = "" },
    ground (arith, Stands-first_run x),
    refl,
  );
  run-found = λ tr run stored x. (stored, Stands-first_run x, refl, (λ obj. refl));
}

abbrev generator : GeneratorSpec
generator = record {
  template = "{}";
  succeeded_when = "true";
  failed_when = "false";
  in_progress_when = "";
  progress_deadline = none;
}

abbrev first : Session toolkit
first = (create_run toolkit cluster generator input (session_of artifact)).0

-- The controller starts again, and reads the Artifact as it was before.
abbrev restarted : Session toolkit
restarted = record (session_of artifact) { trace = first.trace }

abbrev second : Session toolkit
second = (create_run toolkit cluster generator input restarted).0

creates_first : created_runs cluster first.trace ≡ 1
unfolding create_run submit_run created label_run render_template walk_members render_leaf
    ensure_generator_watch is_watched insert
creates_first = refl

created_first : created_runs cluster first.trace ≢ 0
created_first e = absurd (omega (arith, e, creates_first))

create_run-recovers_example :
    (created_runs cluster second.trace ≡ created_runs cluster restarted.trace)
    × (second.obj.status.generator_ref ≡ first.obj.status.generator_ref)
    × (second.obj.status.attempts ≡ first.obj.status.attempts)
create_run-recovers_example =
    create_run-recovers toolkit-ObjectLaws cluster cluster-RunLaws generator input
      (session_of artifact) restarted [] created_first refl refl tt
