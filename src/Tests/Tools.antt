-- ===== src/Tests/Tools.antt =====
-- A concrete toolkit for the examples, with its laws.
use text.Mathlib.Text.{find?}
use artifact_controller.Prelude.{
  eq_iff, String, Bool, true, false, not, Option, none, some, List, [], ◌∷◌, ◌≡◌, ◌==◌, arith,
  if◌then◌else◌, is_none,
}
use artifact_controller.Prelude.Result.{ok, errorf}
use artifact_controller.Api.Json.{Value, Object, close, entry}
use artifact_controller.Api.Conditions.{
  Condition, ConditionType, same_type, same_type_iff, status_is_true,
}
use artifact_controller.Toolkit.{Toolkit, CelValue, ConditionLaws, FinalizerLaws}

abbrev drop : ConditionType → List Condition → List Condition
drop t [] = []
drop t (x ∷ l) = if same_type t x.type then drop t l else x ∷ drop t l

abbrev get_condition : ConditionType → List Condition → Option Condition
get_condition t [] = none
get_condition t (x ∷ l) = if same_type x.type t then some x else get_condition t l

abbrev text_of : Option Value → String
text_of (some (Value.text t)) = t
text_of _ = ""

abbrev value_at : String → Object → Option Value
value_at k close = none
value_at k (entry j v o) = if j == k then some v else value_at k o

abbrev has : List String → String → Bool
has [] f = false
has (g ∷ l) f = if g == f then true else has l f

abbrev without : List String → String → List String
without [] f = []
without (g ∷ l) f = if g == f then without l f else g ∷ without l f

abbrev holds : Option Condition → Bool
holds none = false
holds (some x) = status_is_true x.status

abbrev pub toolkit : Toolkit
toolkit = record {
  sprintf = λ f args. f;
  itoa = λ i. "1";
  round_second = λ d. d;
  format_value = λ v. "v";
  to_lower = λ s. s;
  trim_space = λ s. s;
  contains = λ s t. not (is_none (find? s t));
  marshal_identity = λ m. "{}";
  unmarshal_object = λ raw.
      ok (entry "apiVersion" (Value.text "batch/v1") (entry "kind" (Value.text "Job") close));
  sha256_hex = λ s. "44136fa355b3678a1146ad16f7e8649e94fb4fc21fe77e8310c060f61caaff8a";
  parse_template = λ t. ok tt;
  execute_template = λ t in_. ok (if t == "{{ .SpecHash }}" then in_.spec_hash else in_.name);
  Ast = String;
  Program = String;
  compile = λ e. ok e;
  program = λ a. ok a;
  eval = λ p o st. ok (CelValue.bool (p == "true"));
  mark = λ t s r m l. record { type = t; status = s; reason = r; message = m } ∷ drop t l;
  drop = drop;
  get_condition = get_condition;
  is_true = λ t l. holds (get_condition t l);
  contains_finalizer = has;
  add_finalizer = λ l f. f ∷ l;
  remove_finalizer = without;
  set_controller_reference = λ obj run. ok run;
  is_controlled_by = λ run obj. true;
  get_api_version = λ o. text_of (value_at "apiVersion" o);
  get_kind = λ o. text_of (value_at "kind" o);
  get_name = λ o. text_of (value_at "name" o);
  get_namespace = λ o. text_of (value_at "namespace" o);
  get_labels = λ o. [];
  get_creation_timestamp = λ o. none;
  set_name = λ n o. entry "name" (Value.text n) o;
  set_namespace = λ n o. entry "namespace" (Value.text n) o;
  set_labels = λ l o. o;
  group_version_kind = λ o. record { group = "batch"; version = "v1"; kind = "Job" };
  filter_out_not_found = λ e. none;
  aggregate = λ l. errorf "aggregate";
}

get-drop :
    (t u : ConditionType) (l : List Condition)
    → get_condition u (drop t l) ≡ (if same_type t u then none else get_condition u l)
get-drop t u [] = ground arith
get-drop t u (x ∷ l) =
    ground
      (arith, same_type_iff t u, same_type_iff t x.type, same_type_iff x.type u, get-drop t u l)

pub toolkit-ConditionLaws : ConditionLaws toolkit
toolkit-ConditionLaws = record {
  get-mark = λ t u s r m l. ground (arith, same_type_iff t u, get-drop t u l);
  get-drop = get-drop;
  is_true_lem = λ t l. ground arith;
}

has-without : (l : List String) (f : String) → has (without l f) f ≡ false
has-without [] f = ground arith
has-without (g ∷ l) f = ground (arith, has-without l f, eq_iff g f)

pub toolkit-FinalizerLaws : FinalizerLaws toolkit
toolkit-FinalizerLaws = record {
  contains-add = λ l f. ground (arith, eq_iff f f);
  contains-remove = has-without;
}
