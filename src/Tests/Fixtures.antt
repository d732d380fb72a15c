-- ===== src/Tests/Fixtures.antt =====
-- A concrete cluster, store and resources for the examples.
use artifact_controller.Prelude.{true, false, ◌*◌, none, some, [], ◌∷◌}
use artifact_controller.Prelude.Int.{pos, second, minute}
use artifact_controller.Prelude.Result.{ok}
use artifact_controller.Api.Json.{close}
use artifact_controller.Api.Conditions.{State}
use artifact_controller.Api.Artifact.{
  GeneratorReference, Artifact, ArtifactStatus, DeletionPolicy, ManagementPolicy,
  artifact_finalizer, retry_annotation,
}
use artifact_controller.Api.ArtifactClass.{ArtifactClass}
use artifact_controller.Toolkit.{Input}
use artifact_controller.Store.{Observation, Driver}
use artifact_controller.Controller.Session.{Cluster, Session}
use artifact_controller.Controller.Request.{Memory}
use artifact_controller.Tests.Tools.{toolkit}

-- A class of the fake store with a job as its generator.
abbrev pub class : ArtifactClass
class = record {
  name = "demo";
  store = record {
    driver = "fake";
    key_template = "";
    s3 = none;
    oci = none;
    http = none;
    ami = none;
    repo_manager = none;
    fake = true;
  };
  generator = some (record {
    template = "{}";
    succeeded_when = "false";
    failed_when = "false";
    in_progress_when = "";
    progress_deadline = none;
  });
  backoff = none;
  drift = none;
  verification_grace_period = pos 0;
}

-- A driver that always gives the same observation, and deletes without an error.
abbrev pub driver_of : Observation → Driver
driver_of obs = record { observe = λ tr key. ok obs; delete = λ tr key. none }

-- A cluster whose store gives the observation, at 1000 s after the epoch.
abbrev pub cluster_of : Observation → Artifact → Cluster
cluster_of obs obj = record {
  registry = record { factories = ("fake", λ tr cl. ok (driver_of obs)) ∷ [] };
  now = λ tr. pos (1000 * second);
  scale_random = λ tr d. d;
  get_artifact = λ tr ns name. ok obj;
  get_class = λ tr name. ok class;
  get_run = λ tr ref. ok close;
  create_run = λ tr run. ok run;
  delete_run = λ tr ref. none;
  delete_artifact = λ tr ns name. none;
  patch = λ tr obj. none;
  watch = λ tr gvk. none;
}

abbrev pub present : Observation
present = record { exists = true; digest = "d1"; metadata = [] }

abbrev pub foreign : Observation
foreign = record {
  exists = true;
  digest = "d1";
  metadata = ("artifact-spec-hash", "sha256:other") ∷ [];
}

abbrev pub new_status : ArtifactStatus
new_status = record {
  observed_generation = pos 0;
  spec_hash = "";
  key = "";
  digest = "";
  state = State.unset;
  attempts = pos 0;
  failed_attempts = pos 0;
  last_failure_time = none;
  last_failure_message = "";
  generator_ref = none;
  generator_succeeded_at = none;
  last_verified_time = none;
  retry_token = "";
  conditions = [];
}

-- An Artifact created at 900 s, with its finalizer.
abbrev pub artifact : Artifact
artifact = record {
  name = "a";
  namespace = "default";
  generation = pos 1;
  annotations = [];
  finalizers = artifact_finalizer ∷ [];
  creation_timestamp = pos (900 * second);
  deletion_timestamp = none;
  spec = record {
    class_ref = "demo";
    identity = ("gitRef", "v1") ∷ [];
    params = [];
    interval = pos minute;
    suspend = false;
    ttl = none;
    delete_after = none;
    deletion_policy = DeletionPolicy.unset;
    management_policy = ManagementPolicy.unset;
  };
  status = new_status;
}

abbrev pub sensor : Artifact
sensor = record artifact {
  spec = record artifact.spec { management_policy = ManagementPolicy.observe };
}

-- An Artifact whose deleteAfter has passed.
abbrev pub overdue : Artifact
overdue = record artifact { spec = record artifact.spec { delete_after = some (pos minute) } }

abbrev pub start : Memory toolkit
start = record { trace = []; progs = []; watched = [] }

abbrev pub session_of : Artifact → Session toolkit
session_of obj = record { obj = obj; trace = []; progs = []; watched = [] }

-- The template data of the Artifact, with the key "k".
abbrev pub input : Input
input = record {
  identity = artifact.spec.identity;
  params = [];
  spec_hash = "sha256:own";
  spec_hex = "own";
  key = "k";
  name = "a";
  namespace = "default";
  class = "demo";
  attempt = pos 0;
}

abbrev pub in_flight_ref : GeneratorReference
in_flight_ref = record {
  api_version = "batch/v1";
  kind = "Job";
  name = "a-own-r1";
  namespace = "default";
}

-- An Artifact with a run in flight.
abbrev pub in_flight : Artifact
in_flight = record artifact {
  status = record new_status { generator_ref = some in_flight_ref; attempts = pos 1 };
}

-- An Artifact under the policy Delete that is being deleted.
abbrev pub leaving : Artifact
leaving = record artifact {
  deletion_timestamp = some (pos (950 * second));
  spec = record artifact.spec { deletion_policy = DeletionPolicy.delete };
  status = record new_status { key = "k"; spec_hash = "sha256:own" };
}

-- A sensor with a run left over from before the policy was Observe.
abbrev pub flipped : Artifact
flipped = record in_flight {
  spec = record in_flight.spec { management_policy = ManagementPolicy.observe };
}

-- An Artifact with a retry token.
abbrev pub retried : Artifact
retried = record in_flight {
  annotations = (retry_annotation, "1") ∷ [];
  status = record in_flight.status { failed_attempts = pos 5 };
}
