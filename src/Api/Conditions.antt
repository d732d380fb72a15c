-- ===== src/Api/Conditions.antt =====
-- api/v1alpha1/conditions.go: condition types, reasons and states. `ready`, `reconciling` and
-- `stalled` are those of fluxcd/pkg/apis/meta.
use artifact_controller.Prelude.{
  equal, ℕ, zero, suc, String, Bool, true, false, ◌≡◌, refl, sym, ap, ◌∙◌, ◌↔◌, arith,
}

pub data ConditionType : Type 0 where
  ready reconciling stalled : ConditionType
  artifact_in_store artifact_drifted generator_succeeded deleting : ConditionType

pub data ConditionStatus : Type 0 where
  is_true is_false is_unknown : ConditionStatus

pub data Reason : Type 0 where
  artifact_available artifact_missing generating awaiting_artifact backoff_pending : Reason
  generator_failed generator_succeeded succeeded_without_artifact content_drifted : Reason
  status_unrecognized progress_deadline_exceeded failure_budget_exhausted key_conflict : Reason
  generator_not_configured store_unavailable store_delete_failed class_not_found : Reason
  template_error expired suspended deleting : Reason

-- `unset` is the empty string of a new object.
pub data State : Type 0 where
  unset pending generating awaiting_artifact ready missing degraded expired suspended : State
  key_conflict deleting : State

-- metav1.Condition, without the transition time that the conditions package keeps.
pub record Condition : Type 0 where
  pub type : ConditionType
  pub status : ConditionStatus
  pub reason : Reason
  pub message : String

type_index : ConditionType → ℕ
type_index ConditionType.ready = 0
type_index ConditionType.reconciling = 1
type_index ConditionType.stalled = 2
type_index ConditionType.artifact_in_store = 3
type_index ConditionType.artifact_drifted = 4
type_index ConditionType.generator_succeeded = 5
type_index ConditionType.deleting = 6

-- Equality of the type names, which are different strings.
unfoldable pub same_type : ConditionType → ConditionType → Bool
unfolding type_index
same_type a b = equal (type_index a) (type_index b)

type_of_index : ℕ → ConditionType
type_of_index zero = ConditionType.ready
type_of_index (suc zero) = ConditionType.reconciling
type_of_index (suc (suc zero)) = ConditionType.stalled
type_of_index (suc (suc (suc zero))) = ConditionType.artifact_in_store
type_of_index (suc (suc (suc (suc zero)))) = ConditionType.artifact_drifted
type_of_index (suc (suc (suc (suc (suc zero))))) = ConditionType.generator_succeeded
type_of_index (suc (suc (suc (suc (suc (suc n)))))) = ConditionType.deleting

type_of_index_lem : (t : ConditionType) → type_of_index (type_index t) ≡ t
unfolding type_of_index type_index
type_of_index_lem ConditionType.ready = refl
type_of_index_lem _ = refl

eq_of_compare : (m n : ℕ) → equal m n ≡ true → m ≡ n
eq_of_compare m n h = ground arith

index_eq_of_same : (a b : ConditionType) → same_type a b ≡ true → type_index a ≡ type_index b
unfolding same_type
index_eq_of_same a b h = eq_of_compare (type_index a) (type_index b) h

pub same_type_refl : (a : ConditionType) → same_type a a ≡ true
unfolding same_type
same_type_refl ConditionType.ready = refl
same_type_refl _ = refl

pub same_type_iff : (a b : ConditionType) → (same_type a b ≡ true) ↔ (a ≡ b)
same_type_iff a b = (
  λ h. sym (type_of_index_lem a) ∙ ap type_of_index (index_eq_of_same a b h) ∙ type_of_index_lem b,
  λ e. rw e (same_type_refl b),
)

abbrev pub is_unset : State → Bool
is_unset State.unset = true
is_unset _ = false

abbrev pub status_is_true : ConditionStatus → Bool
status_is_true ConditionStatus.is_true = true
status_is_true _ = false

-- The text of a reason.
abbrev pub reason_text : Reason → String
reason_text Reason.artifact_available = "ArtifactAvailable"
reason_text Reason.artifact_missing = "ArtifactMissing"
reason_text Reason.generating = "Generating"
reason_text Reason.awaiting_artifact = "AwaitingArtifact"
reason_text Reason.backoff_pending = "BackoffPending"
reason_text Reason.generator_failed = "GeneratorFailed"
reason_text Reason.generator_succeeded = "GeneratorSucceeded"
reason_text Reason.succeeded_without_artifact = "SucceededWithoutArtifact"
reason_text Reason.content_drifted = "ContentDrifted"
reason_text Reason.status_unrecognized = "GeneratorStatusUnrecognized"
reason_text Reason.progress_deadline_exceeded = "ProgressDeadlineExceeded"
reason_text Reason.failure_budget_exhausted = "FailureBudgetExhausted"
reason_text Reason.key_conflict = "KeyConflict"
reason_text Reason.generator_not_configured = "GeneratorNotConfigured"
reason_text Reason.store_unavailable = "StoreUnavailable"
reason_text Reason.store_delete_failed = "StoreDeleteFailed"
reason_text Reason.class_not_found = "ClassNotFound"
reason_text Reason.template_error = "TemplateError"
reason_text Reason.expired = "Expired"
reason_text Reason.suspended = "Suspended"
reason_text Reason.deleting = "Deleting"
