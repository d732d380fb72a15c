-- ===== src/Manager/Started.antt =====
-- When the manager starts, and whose secrets its drivers can read.
use artifact_controller.Prelude.{
  String, Option, ℕ, ◌≡◌, ◌⊎◌, refl, ap, arith, none, some, List, [], ◌∷◌, inl, inr, Option-cases,
  All,
}
use artifact_controller.Prelude.Maps.{Map}
use artifact_controller.Prelude.Result.{Error, Result, ok, err}
use artifact_controller.Toolkit.{Toolkit}
use artifact_controller.Calls.{Trace}
use artifact_controller.Generator.Evaluator.{new_evaluator}
use artifact_controller.Store.{Registry}
use artifact_controller.Store.Fake.{FakeStore}
use artifact_controller.Store.Oci.Client.{Remote}
use artifact_controller.Store.S3.{Sdk}
use artifact_controller.Web.{Web}
use artifact_controller.Controller.Setup.{Manager, Reconciler, setup_with_manager}
use artifact_controller.Manager.{Before, driver_registry, controller_namespace, secret_resolver}
use artifact_controller.Manager.Startup.{
  Flags, Host, Step, Exit, checked, manager_options, registry, new_reconciler, start_manager,
  with_reconciler, with_evaluator, with_manager, main,
}

abbrev NotStarted : Step → Type 0
NotStarted (Step.started registry) = ⊥
NotStarted _ = Unit

abbrev exit_code : Option Error → ℕ
exit_code none = 0
exit_code (some e) = 1

-- What holds of a call that fails and of a call that succeeds holds of a call.
checked-cases :
    (P : Exit → Type 1) (o : Option Error) (step : Step) (next : List Step → Exit)
    (steps : List Step)
    → ((e : Error) → o ≡ some e → P (record { code = 1; steps = step ∷ steps }))
    → (o ≡ none → P (next (step ∷ steps)))
    → P (checked o step next steps)
checked-cases P none step next steps f g = g refl
checked-cases P (some e) step next steps f g = f e refl

module _ (k : Toolkit) (w : Web) (r : Remote) (sdk : Sdk) (before : Before)
    (store : Trace → FakeStore) (host : Host) where
  -- Every step before the start succeeded.
  pub record Prepared (flags : Flags) : Type 1 where
    pub client_scheme : host.add_client_scheme ≡ none
    pub artifacts_scheme : host.add_artifacts_scheme ≡ none
    pub manager : Manager
    pub new_manager : host.new_manager (manager_options flags) ≡ ok manager
    pub new_env : host.new_env ≡ ok tt
    pub set_up : Reconciler manager
    pub setup :
        setup_with_manager manager k (new_reconciler k w r sdk before store host manager flags)
        ≡ ok set_up
    pub healthz : host.add_healthz ≡ none
    pub readyz : host.add_readyz ≡ none

  abbrev all_steps : Registry → List Step
  all_steps built =
      Step.started built
      ∷ Step.readyz
      ∷ Step.healthz
      ∷ Step.reconciler
      ∷ Step.evaluator
      ∷ Step.manager
      ∷ Step.artifacts_scheme
      ∷ Step.client_scheme
      ∷ []

  -- The process started its manager after all the other steps, or it gave up before.
  abbrev pub Started : Flags → Exit → Type 1
  Started flags x =
      (Prepared flags
        × (x.steps ≡ all_steps (registry k w r sdk before store host flags))
        × (x.code ≡ exit_code host.start))
      ⊎ ((x.code ≡ 1) × All NotStarted x.steps)

  start_manager-Started :
      (flags : Flags)
      → Prepared flags
      → Started flags (
          start_manager k w r sdk before store host flags (
            Step.readyz ∷ Step.healthz ∷ Step.reconciler ∷ Step.evaluator ∷ Step.manager
            ∷ Step.artifacts_scheme ∷ Step.client_scheme ∷ []))
  start_manager-Started flags p = elim (Option-cases host.start) [
    | inr (e, z) ↦ inl (p, rw z refl, rw z refl)
    | inl z ↦ inl (p, rw z refl, rw z refl)
  ]

  with_reconciler-Started :
      (flags : Flags) (m : Manager) (s : Result (Reconciler m))
      → host.add_client_scheme ≡ none
      → host.add_artifacts_scheme ≡ none
      → host.new_manager (manager_options flags) ≡ ok m
      → host.new_env ≡ ok tt
      → setup_with_manager m k (new_reconciler k w r sdk before store host m flags) ≡ s
      → Started flags (
          with_reconciler k w r sdk before store host flags s
            (Step.evaluator ∷ Step.manager ∷ Step.artifacts_scheme ∷ Step.client_scheme ∷ []))
  with_reconciler-Started flags m (err e) c a n v q = inr (refl, ground arith)
  with_reconciler-Started flags m (ok set_up) c a n v q =
      checked-cases (Started flags) host.add_healthz _ _ _ (λ e h. inr (refl, ground arith))
        (λ h.
          checked-cases (Started flags) host.add_readyz _ _ _ (λ e y. inr (refl, ground arith))
            (λ y. start_manager-Started flags (record {
              client_scheme = c;
              artifacts_scheme = a;
              manager = m;
              new_manager = n;
              new_env = v;
              set_up = set_up;
              setup = q;
              healthz = h;
              readyz = y;
            })))

  with_evaluator-Started :
      (flags : Flags) (m : Manager) (env : Result (Unit {0}))
      → host.add_client_scheme ≡ none
      → host.add_artifacts_scheme ≡ none
      → host.new_manager (manager_options flags) ≡ ok m
      → host.new_env ≡ env
      → Started flags (
          with_evaluator k w r sdk before store host m flags
            (new_evaluator k env)
            (Step.manager ∷ Step.artifacts_scheme ∷ Step.client_scheme ∷ []))
  unfolding new_evaluator
  with_evaluator-Started flags m (err e) c a n v = inr (refl, ground arith)
  with_evaluator-Started flags m (ok u) c a n v = with_reconciler-Started flags m _ c a n v refl

  with_manager-Started :
      (flags : Flags) (m : Result Manager)
      → host.add_client_scheme ≡ none
      → host.add_artifacts_scheme ≡ none
      → host.new_manager (manager_options flags) ≡ m
      → Started flags (
          with_manager k w r sdk before store host flags m
            (Step.artifacts_scheme ∷ Step.client_scheme ∷ []))
  with_manager-Started flags (err e) c a n = inr (refl, ground arith)
  with_manager-Started flags (ok m) c a n = with_evaluator-Started flags m host.new_env c a n refl

  -- The process starts its manager, with the registry of drivers, only after every other step of
  -- main succeeded, and its exit code then tells whether the manager ended with an error. Where a
  -- step failed, it exits with code 1 and has not started the manager.
  pub main-Started : (flags : Flags) → Started flags (main k w r sdk before store host flags)
  unfolding main
  main-Started flags =
      checked-cases (Started flags) host.add_client_scheme _ _ _ (λ e c. inr (refl, ground arith))
        (λ c.
          checked-cases (Started flags) host.add_artifacts_scheme _ _ _
            (λ e a. inr (refl, ground arith)) (λ a. with_manager-Started flags _ c a refl))

-- A process in another cluster, which differs in the secrets that a Get returns.
abbrev pub with_get : Host → (String → String → Result (Map String)) → Host
with_get host get_secret = record host { get_secret = get_secret }

-- The drivers of the process depend on no secret outside the controller's namespace: where two
-- clusters have the same secrets in it, the registries are the same, whatever a class names.
pub registry-confined :
    (k : Toolkit) (w : Web) (r : Remote) (sdk : Sdk) (before : Before) (store : Trace → FakeStore)
    (host : Host) (flags : Flags) (other : String → String → Result (Map String))
    → ((name : String)
        → other (controller_namespace k host.pod_namespace host.namespace_file) name
          ≡ host.get_secret (controller_namespace k host.pod_namespace host.namespace_file) name)
    → registry k w r sdk before store (with_get host other) flags
      ≡ registry k w r sdk before store host flags
unfolding registry secret_resolver
registry-confined k w r sdk before store host flags other same =
    ap
      (λ (read : String → Result (Map String)).
        driver_registry k (record w { secret = λ log. read }) r sdk before store
          flags.enable_fake_store)
      (λ i name. same name i)
