-- ===== src/Controller/Safety/Recovery.antt =====
-- The API server and the runs in it, for the recovery of a lost status update.
pub mod Creating
use artifact_controller.Prelude.{
  ◌+◌, String, true, ◌≡◌, ◌≢◌, ◌⊎◌, subst, sym, ◌∙◌, refl, arith, none, some, List, [], ◌∷◌, ◌++◌,
  All, inl, inr,
}
use artifact_controller.Prelude.Result.{Error, Result, ok, err, is_already_exists}
use artifact_controller.Prelude.Result.Bind.{Result-cases}
use artifact_controller.Prelude.Int.{inc32}
use artifact_controller.Toolkit.{Toolkit, Input, GroupVersionKind}
use artifact_controller.Calls.{Call, Trace}
use artifact_controller.Api.Json.{Object}
use artifact_controller.Api.Artifact.{Artifact}
use artifact_controller.Api.ArtifactClass.{GeneratorSpec}
use artifact_controller.Generator.Render.{render_template}
use artifact_controller.Controller.Session.{Cluster, Session, call}
use artifact_controller.Controller.Run.{generator_ref_for, run_name, ensure_generator_watch}
use artifact_controller.Controller.Create.{
  create_run, submit_run, adopt, create_refused, created, label_run,
}
use artifact_controller.Controller.Budget.Ledger.{created_runs}

-- A call that deletes no run.
abbrev pub KeepsRuns : Call → Type 0
KeepsRuns (Call.delete_run ref) = ⊥
KeepsRuns _ = Unit

-- The API server accepted the run and stored it as `stored`, and the calls since then deleted no run.
pub data Stands (c : Cluster) (run stored : Object) : Trace → Type 0 where
  accepted :
      {tr : Trace}
      → c.create_run tr run ≡ ok stored
      → Stands c run stored (Call.create_run run ∷ tr)
  since :
      {tr : Trace} (a : Call) → KeepsRuns a → Stands c run stored tr → Stands c run stored (a ∷ tr)

-- The documented behaviour of unstructured objects and of owner references.
pub record ObjectLaws (k : Toolkit) : Type 0 where
  pub name-set :
      (run : Object) (name namespace : String) (labels : List (String × String))
      → let u = k.set_labels labels (k.set_namespace namespace (k.set_name name run)) in
        (k.get_name u ≡ name) × (k.get_namespace u ≡ namespace)
  pub owner-kept :
      (obj : Artifact) (run owned : Object)
      → k.set_controller_reference obj run ≡ ok owned
      → (k.get_name owned ≡ k.get_name run)
        × (k.get_namespace owned ≡ k.get_namespace run)
        × (k.is_controlled_by owned obj ≡ true)

-- The documented behaviour of the API server: it stores a run with its owner, a name is taken while
-- a run has it, and a run that stands is found by its reference: the answer has the run's identity
-- and owner, while all else in it may have changed since. Nobody else deletes the run.
pub record RunLaws (k : Toolkit) (c : Cluster) : Type 0 where
  pub owner-stored :
      (tr : Trace) (run stored : Object) (obj : Artifact)
      → c.create_run tr run ≡ ok stored
      → k.is_controlled_by stored obj ≡ k.is_controlled_by run obj
  pub name-taken :
      (tr : Trace) (run stored : Object)
      → Stands c run stored tr
      → (e : Error) × (c.create_run tr run ≡ err e) × (is_already_exists e.kind ≡ true)
  pub run-found :
      (tr : Trace) (run stored : Object)
      → Stands c run stored tr
      → (found : Object) × (c.get_run tr (generator_ref_for k run) ≡ ok found)
        × (generator_ref_for k found ≡ generator_ref_for k stored)
        × ((obj : Artifact) → k.is_controlled_by found obj ≡ k.is_controlled_by stored obj)

pub Stands-append :
    {c : Cluster} {run stored : Object} {tr : Trace} (later : Trace)
    → All KeepsRuns later
    → Stands c run stored tr
    → Stands c run stored (later ++ tr)
Stands-append [] h x = x
Stands-append (a ∷ later) h x = since a h.0 (Stands-append later h.1 x)
