-- ===== src/Controller/Setup.antt =====
-- SetupWithManager, artifactsForClass, patchOpts and maxInt of artifact_controller.go: how the
-- reconciler is wired to the controller runtime.
pub mod Wiring
use artifact_controller.Prelude.{
  String, Option, none, some, List, [], ◌∷◌, map, ◌==◌, if◌then◌else◌,
}
use artifact_controller.Prelude.Int.{ℤ, pos, ltb_ℤ}
use artifact_controller.Prelude.Result.{Error, Result, ok, err, errorf}
use artifact_controller.Toolkit.{Toolkit, Arg}
use artifact_controller.Calls.{Trace}
use artifact_controller.Api.Conditions.{ConditionType}
use artifact_controller.Api.Artifact.{Artifact}
use artifact_controller.Api.ArtifactClass.{ArtifactClass}

abbrev pub Clock : Type 0
Clock = Trace → ℤ

-- reconcile.Request: the namespace and the name
abbrev pub Request : Type 0
Request = String × String

-- What the controller is built with: the requests that a change of a class causes, and
-- controller.Options.
pub record ControllerOptions : Type 0 where
  pub on_class : ArtifactClass → List Request
  pub max_concurrent_reconciles : ℤ

abbrev pub clock_or : Clock → Option Clock → Clock
clock_or time_now none = time_now
clock_or time_now (some clock) = clock

-- ctrl.Manager, with its cached client
pub record Manager : Type 1 where
  pub Controller : Type 0
  pub Cache : Type 0
  pub Mapper : Type 0
  pub time_now : Clock
  pub index_field : String → (Artifact → List String) → Option Error
  -- List with client.MatchingFields of one field
  pub list_matching : String → String → Result (List Artifact)
  pub build : ControllerOptions → Result Controller
  pub cache : Cache
  pub rest_mapper : Mapper

-- ArtifactReconciler, as far as it is set up here
pub record Reconciler (m : Manager) : Type 0 where
  pub now : Option Clock
  pub field_owner : String
  pub max_concurrent_reconciles : ℤ
  pub controller : Option m.Controller
  pub cache : Option m.Cache
  pub mapper : Option m.Mapper

-- classIndexKey
abbrev pub class_index_key : String
class_index_key = ".spec.classRef.name"

-- The values of an Artifact in the index.
abbrev pub class_index : Artifact → List String
class_index obj = obj.spec.class_ref ∷ []

-- maxInt
abbrev pub max_int : ℤ → ℤ → ℤ
max_int a b = if ltb_ℤ b a then a else b

-- The conditions of patchOpts that the controller owns.
abbrev pub owned_conditions : List ConditionType
owned_conditions =
    ConditionType.ready ∷ ConditionType.reconciling ∷ ConditionType.stalled
    ∷ ConditionType.artifact_in_store ∷ ConditionType.generator_succeeded ∷ ConditionType.deleting
    ∷ []

-- client.ObjectKeyFromObject
abbrev pub object_key : Artifact → Request
object_key obj = (obj.namespace, obj.name)

module _ (m : Manager) where
  -- artifactsForClass: an error of the list is logged, and nothing is enqueued.
  unfoldable pub artifacts_for_class : ArtifactClass → List Request
  artifacts_for_class class = elim (m.list_matching class_index_key class.name) [
    | err e ↦ []
    | ok items ↦ map object_key items
  ]

  -- The defaults of the reconciler's fields: the clock is time.Now unless a test gave one.
  unfoldable pub with_defaults : Reconciler m → Reconciler m
  with_defaults r = record r {
    now = some (clock_or m.time_now r.now);
    field_owner = if r.field_owner == "" then "artifact-controller" else r.field_owner;
  }

  abbrev pub controller_options : Reconciler m → ControllerOptions
  controller_options r = record {
    on_class = artifacts_for_class;
    max_concurrent_reconciles = max_int r.max_concurrent_reconciles (pos 1);
  }

  -- SetupWithManager
  unfoldable pub setup_with_manager : Toolkit → Reconciler m → Result (Reconciler m)
  setup_with_manager k r =
      let r1 = with_defaults r in
      elim (m.index_field class_index_key class_index) [
        | some e ↦
            err
              (record e { text = k.sprintf "index artifacts by class: %w" (Arg.text e.text ∷ []) })
        | none ↦ elim (m.build (controller_options r1)) [
          | err e ↦ err e
          | ok c ↦
              ok (record r1 {
                controller = some c;
                cache = some m.cache;
                mapper = some m.rest_mapper;
              })
        ]
      ]
