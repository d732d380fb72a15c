-- ===== src/Api/ArtifactClass.antt =====
-- api/v1alpha1/artifactclass_types.go: the ArtifactClass resource and its defaults.
use artifact_controller.Prelude.{
  String, Bool, not, Option, none, some, List, ◌*◌, ◌==◌, if◌then◌else◌,
}
use artifact_controller.Prelude.Int.{ℤ, pos, ltb_ℤ, second, minute}

abbrev pub default_stamp_metadata_key : String
default_stamp_metadata_key = "artifact-spec-hash"

abbrev pub default_oci_stamp_annotation : String
default_oci_stamp_annotation = "dev.kargops.artifacts.spec-hash"

pub record S3StoreSpec : Type 0 where
  pub bucket : String
  pub region : String
  pub endpoint : String
  pub use_path_style : Bool
  pub stamp_metadata_key : String

pub record OciStoreSpec : Type 0 where
  pub repository : String
  pub insecure : Bool
  pub stamp_annotation : String

pub record HttpRequestSpec : Type 0 where
  pub method : String
  pub url : String
  pub headers : List (String × String)

-- The string constants of HTTPAuthType; `unset` is the empty string, `other` any further value.
pub data HttpAuthType : Type 0 where
  unset no_auth bearer basic header sig_v4 client_credentials : HttpAuthType
  other : String → HttpAuthType

pub record HttpAuthSpec : Type 0 where
  pub type : HttpAuthType
  pub secret_ref : Option String
  pub token_key : String
  pub username_key : String
  pub password_key : String
  pub header_name : String
  pub region : String
  pub service : String
  pub token_url : String
  pub client_id_key : String
  pub client_secret_key : String
  pub scopes : List String

pub record HttpStoreSpec : Type 0 where
  pub observe : HttpRequestSpec
  pub delete : Option HttpRequestSpec
  pub exists : String
  pub digest : String
  pub stamp : String
  pub stamp_key : String
  pub auth : Option HttpAuthSpec
  pub timeout : Option ℤ

pub record AmiStoreSpec : Type 0 where
  pub region : String
  pub owner : String
  pub stamp_tag_key : String
  pub delete_snapshots : Bool

pub record RepoManagerStoreSpec : Type 0 where
  pub base_url : String
  pub repository : String
  pub secret_ref : Option String
  pub stamp_property_key : String
  pub timeout : Option ℤ

-- The fake store's specification has no fields: only its presence is kept.
pub record StoreSpec : Type 0 where
  pub driver : String
  pub key_template : String
  pub s3 : Option S3StoreSpec
  pub oci : Option OciStoreSpec
  pub http : Option HttpStoreSpec
  pub ami : Option AmiStoreSpec
  pub repo_manager : Option RepoManagerStoreSpec
  pub fake : Bool

-- `template` is the raw JSON of the run.
pub record GeneratorSpec : Type 0 where
  pub template : String
  pub succeeded_when : String
  pub failed_when : String
  pub in_progress_when : String
  pub progress_deadline : Option ℤ

pub record BackoffSpec : Type 0 where
  pub max_attempts : ℤ
  pub initial_delay : ℤ
  pub max_delay : ℤ

-- `unset` is the empty string.
pub data DriftPolicy : Type 0 where
  unset warn ignore regenerate : DriftPolicy

pub record ArtifactClass : Type 0 where
  pub name : String
  pub store : StoreSpec
  pub generator : Option GeneratorSpec
  pub backoff : Option BackoffSpec
  -- the policy of spec.drift, where that is set
  pub drift : Option DriftPolicy
  pub verification_grace_period : ℤ

pub record Backoff : Type 0 where
  pub max_attempts : ℤ
  pub initial : ℤ
  pub max : ℤ

abbrev pub positive_or : ℤ → ℤ → ℤ
positive_or d x = if ltb_ℤ (pos 0) x then x else d

-- EffectiveBackoff: 5 attempts, 30 s and 32 min, unless the class sets positive values.
unfoldable pub effective_backoff : ArtifactClass → Backoff
effective_backoff in_ = elim in_.backoff [
  | none ↦ record { max_attempts = pos 5; initial = pos (30 * second); max = pos (32 * minute) }
  | some b ↦ record {
    max_attempts = positive_or (pos 5) b.max_attempts;
    initial = positive_or (pos (30 * second)) b.initial_delay;
    max = positive_or (pos (32 * minute)) b.max_delay;
  }
]

-- GracePeriod
unfoldable pub grace_period : ArtifactClass → ℤ
grace_period in_ = positive_or (pos (2 * minute)) in_.verification_grace_period

-- KeyTemplate
unfoldable pub key_template : ArtifactClass → String
key_template in_ =
    if not (in_.store.key_template == "")
    then in_.store.key_template
    else if in_.store.driver == "oci"
    then "{{ .SpecHex }}"
    else "{{ .SpecHash }}"

-- A key of an optional section: the empty string where the section is missing.
abbrev pub section_key {ℓ} : {A : Type ℓ} → (A → String) → Option A → String
section_key f none = ""
section_key f (some a) = f a

-- StampMetadataKey, over strings.ToLower: the first section that sets a key decides.
unfoldable pub stamp_metadata_key : (String → String) → ArtifactClass → String
stamp_metadata_key to_lower in_ =
    if not (s3_key == "")
    then to_lower s3_key
    else if not (repo_key == "")
    then to_lower repo_key
    else if not (ami_key == "")
    then to_lower ami_key
    else if not (oci_key == "")
    then to_lower oci_key
    else if in_.store.driver == "oci"
    then default_oci_stamp_annotation
    else default_stamp_metadata_key
  where
    s3_key : String
    s3_key = section_key (λ (c : S3StoreSpec). c.stamp_metadata_key) in_.store.s3

    repo_key : String
    repo_key =
        section_key (λ (c : RepoManagerStoreSpec). c.stamp_property_key) in_.store.repo_manager

    ami_key : String
    ami_key = section_key (λ (c : AmiStoreSpec). c.stamp_tag_key) in_.store.ami

    oci_key : String
    oci_key = section_key (λ (c : OciStoreSpec). c.stamp_annotation) in_.store.oci

-- ProgressDeadline: 0 where the class has none.
unfoldable pub progress_deadline : ArtifactClass → ℤ
progress_deadline in_ = elim in_.generator [
  | none ↦ pos 0
  | some g ↦ elim g.progress_deadline [ none ↦ pos 0 | some d ↦ d ]
]

abbrev or_warn : DriftPolicy → DriftPolicy
or_warn DriftPolicy.unset = DriftPolicy.warn
or_warn p = p

-- DriftPolicy
unfoldable pub drift_policy : ArtifactClass → DriftPolicy
drift_policy in_ = elim in_.drift [ none ↦ DriftPolicy.warn | some p ↦ or_warn p ]
