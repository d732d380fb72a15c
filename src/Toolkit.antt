-- ===== src/Toolkit.antt =====
-- The code that the controller calls and this repository does not hold, as one parameter: fmt,
-- strings, text/template, encoding/json, crypto/sha256, the CEL library, the Kubernetes API
-- machinery, and the conditions package of fluxcd. `ConditionLaws` and the records below it state
-- the documented behaviour that theorems rely on.
use artifact_controller.Prelude.{
  String, Bool, true, false, Option, none, some, List, ◌≡◌, if◌then◌else◌,
}
use artifact_controller.Prelude.Int.{ℤ}
use artifact_controller.Prelude.Result.{Error, Result}
use artifact_controller.Api.Json.{Object, Members, Value}
use artifact_controller.Api.Conditions.{
  Condition, ConditionType, ConditionStatus, Reason, same_type, status_is_true,
}
use artifact_controller.Api.Artifact.{Artifact}

-- An argument of a fmt verb.
pub data Arg : Type 0 where
  text : String → Arg
  num : ℤ → Arg
  span : ℤ → Arg
  instant : ℤ → Arg

-- schema.GroupVersionKind
pub record GroupVersionKind : Type 0 where
  pub group : String
  pub version : String
  pub kind : String

-- generator.Input: the data that a template sees.
pub record Input : Type 0 where
  pub identity : List (String × String)
  pub params : List (String × String)
  pub spec_hash : String
  pub spec_hex : String
  pub key : String
  pub name : String
  pub namespace : String
  pub class : String
  pub attempt : ℤ

-- The Go value of a CEL result: a bool, or a value of the named other type.
pub data CelValue : Type 0 where
  bool : Bool → CelValue
  other : String → CelValue

pub record Toolkit : Type 1 where
  -- fmt.Sprintf, and the decimal digits of %d
  pub sprintf : String → List Arg → String
  pub itoa : ℤ → String
  -- time.Duration.Round(time.Second)
  pub round_second : ℤ → ℤ
  -- the value of a JSON scalar under %v
  pub format_value : Value → String
  -- strings.ToLower, strings.TrimSpace, strings.Contains
  pub to_lower : String → String
  pub trim_space : String → String
  pub contains : String → String → Bool
  -- encoding/json
  pub marshal_identity : List (String × String) → String
  pub unmarshal_object : String → Result Object
  -- hex(sha256(·))
  pub sha256_hex : String → String
  -- template.New("t").Option("missingkey=error").Parse, and Execute of what it parsed
  pub parse_template : String → Result (Unit {0})
  pub execute_template : String → Input → Result String
  -- cel.Env.Compile, cel.Env.Program, cel.Program.Eval
  pub Ast : Type 0
  pub Program : Type 0
  pub compile : String → Result Ast
  pub program : Ast → Result Program
  pub eval : Program → Object → Members → Result CelValue
  -- fluxcd/pkg/runtime/conditions: the three Mark functions, Delete, Get and IsTrue
  pub mark : ConditionType → ConditionStatus → Reason → String → List Condition → List Condition
  pub drop : ConditionType → List Condition → List Condition
  pub get_condition : ConditionType → List Condition → Option Condition
  pub is_true : ConditionType → List Condition → Bool
  -- controllerutil
  pub contains_finalizer : List String → String → Bool
  pub add_finalizer : List String → String → List String
  pub remove_finalizer : List String → String → List String
  pub set_controller_reference : Artifact → Object → Result Object
  pub is_controlled_by : Object → Artifact → Bool
  -- unstructured.Unstructured; a missing timestamp is `none`
  pub get_api_version : Object → String
  pub get_kind : Object → String
  pub get_name : Object → String
  pub get_namespace : Object → String
  pub get_labels : Object → List (String × String)
  pub get_creation_timestamp : Object → Option ℤ
  pub set_name : String → Object → Object
  pub set_namespace : String → Object → Object
  pub set_labels : List (String × String) → Object → Object
  pub group_version_kind : Object → GroupVersionKind
  -- kerrors.FilterOut(err, IsNotFound), kerrors.NewAggregate
  pub filter_out_not_found : Error → Option Error
  pub aggregate : List Error → Error

-- The status conditions are a map by type.
pub record ConditionLaws (k : Toolkit) : Type 0 where
  pub get-mark :
      (t u : ConditionType) (s : ConditionStatus) (r : Reason) (m : String) (l : List Condition)
      → k.get_condition u (k.mark t s r m l) ≡ (
          if same_type t u
          then some (record { type = t; status = s; reason = r; message = m })
          else k.get_condition u l)
  pub get-drop :
      (t u : ConditionType) (l : List Condition)
      → k.get_condition u (k.drop t l) ≡ (if same_type t u then none else k.get_condition u l)
  pub is_true_lem :
      (t : ConditionType) (l : List Condition)
      → k.is_true t l
        ≡ elim (k.get_condition t l) [ none ↦ false | some c ↦ status_is_true c.status ]

-- Finalizers are a set.
pub record FinalizerLaws (k : Toolkit) : Type 0 where
  pub contains-add :
      (l : List String) (f : String) → k.contains_finalizer (k.add_finalizer l f) f ≡ true
  pub contains-remove :
      (l : List String) (f : String) → k.contains_finalizer (k.remove_finalizer l f) f ≡ false
