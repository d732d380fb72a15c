-- ===== src/Api/Artifact.antt =====
-- api/v1alpha1/artifact_types.go: the Artifact resource.
use artifact_controller.Prelude.{String, Bool, true, false, Option, List, if◌then◌else◌}
use artifact_controller.Prelude.Int.{ℤ, pos, leb_ℤ, minute}
use artifact_controller.Api.Conditions.{Condition, State}

abbrev pub artifact_finalizer : String
artifact_finalizer = "artifacts.kargops.dev/finalizer"

abbrev pub retry_annotation : String
retry_annotation = "artifacts.kargops.dev/retry"

-- `unset` is the empty string.
pub data DeletionPolicy : Type 0 where
  unset orphan delete : DeletionPolicy

pub data ManagementPolicy : Type 0 where
  unset full observe : ManagementPolicy

pub record ArtifactSpec : Type 0 where
  pub class_ref : String
  pub identity : List (String × String)
  pub params : List (String × String)
  pub interval : ℤ
  pub suspend : Bool
  pub ttl : Option ℤ
  pub delete_after : Option ℤ
  pub deletion_policy : DeletionPolicy
  pub management_policy : ManagementPolicy

pub record GeneratorReference : Type 0 where
  pub api_version : String
  pub kind : String
  pub name : String
  pub namespace : String

-- The int32 counters are integers; times are nanoseconds since the epoch.
pub record ArtifactStatus : Type 0 where
  pub observed_generation : ℤ
  pub spec_hash : String
  pub key : String
  pub digest : String
  pub state : State
  pub attempts : ℤ
  pub failed_attempts : ℤ
  pub last_failure_time : Option ℤ
  pub last_failure_message : String
  pub generator_ref : Option GeneratorReference
  pub generator_succeeded_at : Option ℤ
  pub last_verified_time : Option ℤ
  pub retry_token : String
  pub conditions : List Condition

-- The fields of ObjectMeta that the controller reads or writes stand beside spec and status.
pub record Artifact : Type 0 where
  pub name : String
  pub namespace : String
  pub generation : ℤ
  pub annotations : List (String × String)
  pub finalizers : List String
  pub creation_timestamp : ℤ
  pub deletion_timestamp : Option ℤ
  pub spec : ArtifactSpec
  pub status : ArtifactStatus

abbrev pub is_observe : ManagementPolicy → Bool
is_observe ManagementPolicy.observe = true
is_observe _ = false

abbrev pub is_delete : DeletionPolicy → Bool
is_delete DeletionPolicy.delete = true
is_delete _ = false

-- ObserveOnly
abbrev pub observe_only : Artifact → Bool
observe_only in_ = is_observe in_.spec.management_policy

-- GetInterval
unfoldable pub get_interval : Artifact → ℤ
get_interval in_ = if leb_ℤ in_.spec.interval (pos 0) then pos minute else in_.spec.interval
