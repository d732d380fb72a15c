-- ===== src/Lib.antt =====
-- The artifact controller: a Kubernetes operator that keeps one object in a store for each
-- Artifact resource. An Artifact names an ArtifactClass; the class says where the object lives (a
-- store driver and a template for the key) and how it is made (a generator template, such as a
-- Job). A request reads the Artifact, asks the store for the object at the key, and drives a
-- generator run where the object is missing. The status that results is patched back.
--
-- The parts, with the files of the repository that each models:
--   Api         api/v1alpha1: conditions.go (Conditions), artifact_types.go (Artifact),
--               artifactclass_types.go (ArtifactClass), and the JSON objects of templates and runs
--               (Json). A field has the name of the source in snake_case.
--   Hash        internal/hash/hash.go: Canonical is `canonical`, Short is `short`.
--   Store       internal/store/store.go: Registry, Register, DriverFor, and the Driver contract
--               (Observe, Delete) as a record of functions. Names has sort.Strings and
--               strings.Join. Fake is the in-memory driver of internal/store/fake/fake.go. Below it
--               the drivers of internal/store: Http is httpstore (http.go; Secrets and Auth are
--               auth.go and auth_aws.go, Tokens is auth_oauth.go, Expressions is eval.go), Oci is
--               oci/oci.go, S3 is s3/s3.go, Ami is ami/ami.go, RepoManager is
--               repomanager/repomanager.go. Metadata is the loop with which they publish names in
--               lower case; Adapter makes a Driver of a driver's Observe and Delete.
--   Web         what these drivers call outside, as a record that they take: net/http, encodings,
--               CEL over a response, secrets, the clock, and the AWS SDK. Signing is Sign of
--               internal/awsauth/sign.go. Store.Oci.Client is go-containerregistry and Store.S3.Sdk
--               the S3 client, in the same way.
--   Manager     cmd/main.go: the registry of drivers, controllerNamespace and the secret resolver;
--               Startup is main itself, from its flags to the start of the manager. Sensor puts the
--               controller and the http driver together.
--   Generator   internal/generator: render.go (Render: RenderKey, RenderTemplate, walk,
--               renderString) and eval.go (Evaluator: NewEvaluator, EvalBool, program and its
--               cache).
--   Controller  internal/controller/artifact_controller.go: Request is Reconcile with its deferred
--               patch, Reconcile is reconcile, Existing is reconcileExisting and recordDrift,
--               Missing is reconcileMissing and reconcileMissingObserved, Create is createRun,
--               Evaluate is evaluateRun, Failure is recordAttemptFailure, Removal is
--               reconcileExpired and reconcileDelete, Run has the helpers on runs, Timing has
--               backoffDelay and jittered, Setup has SetupWithManager, artifactsForClass and the
--               conditions of patchOpts. A function of the source with many branches is one
--               definition for each stage, which call each other in the order of the code.
--   Calls       what a reconciliation does outside: the calls of the client, of the store drivers
--               and of the event recorder.
--   Toolkit     the third-party code, as a record that every definition takes: text/template,
--               encoding/json, crypto/sha256, CEL, fmt, strings, the unstructured objects, the
--               status conditions of Flux and controllerutil. ConditionLaws says that conditions
--               are a map by type, FinalizerLaws that finalizers are a set.
--   Prelude     shared names: Int (int32, int64 and time.Duration over an integer, with
--               wrap-around written out), Maps (maps by string), Result (a value or an error).
--   Tests       a concrete toolkit, cluster and store, and the theorems at them.
--
-- State. A handler takes a Session: the Artifact in memory, the calls made so far, the evaluator's
-- cache and the watched kinds; it returns the Session and an Outcome (ctrl.Result and the error).
-- The answers of the API server, of the store, of the clock and of the random source are functions
-- of the calls made so far (Controller.Session.Cluster, Store.Driver), so that the environment may
-- change between any two calls, in any way. What is kept between two requests is the Memory of
-- Controller.Request. Controller.Budget.History puts requests after one another, with what may
-- happen between them, and Controller.Safety.Recovery says what the API server keeps of the runs.
--
-- A store driver has a state of its own: the calls that it made of the world outside, and for http
-- the token cache. Its operations are steps `Io S A`, from a state to a value or an error and the
-- next state; the answers of the web, of a registry or of the SDK are functions of the calls before.
-- Store.Adapter.replay gives a driver's state after the calls of a reconciliation, from the one in
-- which the controller built it.
--
-- Bounds. No definition runs on fuel: the loop of backoffDelay is a recursion on its number of
-- rounds, every other loop one over a list (of headers, labels, snapshots, elements). Times
-- are nanoseconds, and a duration wraps around at 2^63 as in Go; time.Time.Sub saturates. Where a
-- theorem needs that durations do not overflow it bounds them far above any use: delays below
-- 2^62 ns (146 years) or 2^61 ns, intervals up to 2^59 ns, of which ten fit.
--
-- Not modelled: logging, metrics, the queue of the controller runtime (what it is set up with is
-- in Controller.Setup), the generated deep copies and manifests, the mutexes of the
-- registry, of the fake store and of the token cache, the timeout of a request and the cancelling
-- of a context. A panic of the source that needs json.Marshal to fail on a map of strings is not
-- reached. Go's random iteration over maps does not matter where it occurs: walk treats the members
-- of an object each for itself, but for which of several errors is returned, and the metadata of a
-- driver is read by name.

pub mod Prelude
pub mod Api
pub mod Toolkit
pub mod Web
pub mod Manager
pub mod Calls
pub mod Store
pub mod Hash
pub mod Generator
pub mod Controller
mod Tests
