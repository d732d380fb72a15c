-- ===== src/Manager/Startup.antt =====
-- main of cmd/main.go: the flags and the start of the process, step by step.
use artifact_controller.Prelude.{String, ℕ, Bool, true, false, Option, none, some, List, [], ◌∷◌}
use artifact_controller.Prelude.Int.{ℤ, pos}
use artifact_controller.Prelude.Maps.{Map}
use artifact_controller.Prelude.Result.{Error, Result, ok, err}
use artifact_controller.Toolkit.{Toolkit}
use artifact_controller.Calls.{Trace}
use artifact_controller.Generator.Evaluator.{Cache, new_evaluator}
use artifact_controller.Store.{Registry}
use artifact_controller.Store.Fake.{FakeStore}
use artifact_controller.Store.Oci.Client.{Remote}
use artifact_controller.Store.S3.{Sdk}
use artifact_controller.Web.{Web}
use artifact_controller.Controller.Setup.{Manager, Reconciler, setup_with_manager}
use artifact_controller.Manager.{Before, driver_registry, controller_namespace, secret_resolver}

-- The flags of main, and their defaults.
pub record Flags : Type 0 where
  pub metrics_addr : String
  pub probe_addr : String
  pub enable_leader_election : Bool
  pub concurrent : ℤ
  pub enable_fake_store : Bool

abbrev pub default_flags : Flags
default_flags = record {
  metrics_addr = "0";
  probe_addr = ":8081";
  enable_leader_election = false;
  concurrent = pos 4;
  enable_fake_store = false;
}

-- ctrl.Options, as far as main sets them
pub record ManagerOptions : Type 0 where
  pub metrics_bind_address : String
  pub health_probe_bind_address : String
  pub leader_election : Bool
  pub leader_election_id : String
  pub leader_election_release_on_cancel : Bool

abbrev pub manager_options : Flags → ManagerOptions
manager_options flags = record {
  metrics_bind_address = flags.metrics_addr;
  health_probe_bind_address = flags.probe_addr;
  leader_election = flags.enable_leader_election;
  leader_election_id = "artifact-controller.artifacts.kargops.dev";
  leader_election_release_on_cancel = true;
}

-- What main calls: the two AddToScheme, ctrl.NewManager with ctrl.GetConfigOrDie, cel.NewEnv, the health checks, Start, the
-- Get of a secret, and the two sources of the controller's namespace.
pub record Host : Type 1 where
  pub add_client_scheme : Option Error
  pub add_artifacts_scheme : Option Error
  pub new_manager : ManagerOptions → Result Manager
  pub new_env : Result (Unit {0})
  pub add_healthz : Option Error
  pub add_readyz : Option Error
  pub start : Option Error
  pub get_secret : String → String → Result (Map String)
  pub pod_namespace : String
  pub namespace_file : Result String

-- The calls that main makes. The start is that of a manager whose reconciler has the registry.
pub data Step : Type 0 where
  client_scheme artifacts_scheme manager evaluator reconciler healthz readyz : Step
  started : Registry → Step

-- A process that has ended: its exit code, and its calls, newest first.
pub record Exit : Type 0 where
  pub code : ℕ
  pub steps : List Step

-- A call whose error ends the process with code 1.
abbrev pub checked : Option Error → Step → (List Step → Exit) → List Step → Exit
checked none step next steps = next (step ∷ steps)
checked (some e) step next steps = record { code = 1; steps = step ∷ steps }

module _ (k : Toolkit) (w : Web) (r : Remote) (sdk : Sdk) (before : Before)
    (store : Trace → FakeStore) (host : Host) where
  -- The web of the drivers, whose secrets are those of the resolver.
  abbrev pub with_secrets : Web
  with_secrets = record w {
    secret = λ log.
        secret_resolver host.get_secret
          (controller_namespace k host.pod_namespace host.namespace_file);
  }

  -- The registry of the process.
  unfoldable pub registry : Flags → Registry
  registry flags = driver_registry k with_secrets r sdk before store flags.enable_fake_store

  -- The reconciler before it is set up.
  abbrev pub new_reconciler : (m : Manager) → Flags → Reconciler m
  new_reconciler m flags = record {
    now = none;
    field_owner = "artifact-controller";
    max_concurrent_reconciles = flags.concurrent;
    controller = none;
    cache = none;
    mapper = none;
  }

  -- mgr.Start returns when the process is told to stop, or with an error.
  abbrev pub start_manager : Flags → List Step → Exit
  start_manager flags =
      checked host.start (Step.started (registry flags))
        (λ steps. record { code = 0; steps = steps })

  abbrev pub with_reconciler : {m : Manager} → Flags → Result (Reconciler m) → List Step → Exit
  with_reconciler flags (err e) steps = record { code = 1; steps = Step.reconciler ∷ steps }
  with_reconciler flags (ok set_up) steps =
      checked host.add_healthz Step.healthz
        (checked host.add_readyz Step.readyz (start_manager flags)) (Step.reconciler ∷ steps)

  abbrev pub with_evaluator : Manager → Flags → Result (Cache k) → List Step → Exit
  with_evaluator m flags (err e) steps = record { code = 1; steps = Step.evaluator ∷ steps }
  with_evaluator m flags (ok progs) steps =
      with_reconciler flags (setup_with_manager m k (new_reconciler m flags))
        (Step.evaluator ∷ steps)

  abbrev pub with_manager : Flags → Result Manager → List Step → Exit
  with_manager flags (err e) steps = record { code = 1; steps = Step.manager ∷ steps }
  with_manager flags (ok m) steps =
      with_evaluator m flags (new_evaluator k host.new_env) (Step.manager ∷ steps)

  -- main
  unfoldable pub main : Flags → Exit
  main flags =
      checked host.add_client_scheme Step.client_scheme
        (checked host.add_artifacts_scheme Step.artifacts_scheme
          (with_manager flags (host.new_manager (manager_options flags))))
        []
