-- ===== src/Store/S3.antt =====
-- internal/store/s3/s3.go: S3-compatible object stores, over the AWS SDK.
pub mod Etag
use Prim.Native.Char.{Char, code}
use Prim.Native.String.{String, ◌++◌}
use artifact_controller.Prelude.{
  Bool, true, false, ◌==◌, ◌||◌, equal, Option, none, some, List, [], ◌∷◌, if◌then◌else◌,
}
use artifact_controller.Prelude.Maps.{Map}
use artifact_controller.Prelude.Result.{Error, Result, ok, err, errorf}
use artifact_controller.Api.ArtifactClass.{ArtifactClass, S3StoreSpec}
use artifact_controller.Toolkit.{Toolkit, Arg}
use artifact_controller.Calls.{Trace}
use artifact_controller.Store.{Observation, no_observation, Factory, Registry, register}
use artifact_controller.Store.Adapter.{adapt}
use artifact_controller.Store.Metadata.{publish}
use artifact_controller.Web.Texts.{trim_right}

-- An error of the SDK; `code` is the code of the smithy.APIError that errors.As finds in it.
pub record SdkError : Type 0 where
  pub text : String
  pub code : Option String

pub data SdkResult (A : Type 0) : Type 0 where
  refused : SdkError → SdkResult A
  answered : A → SdkResult A

-- HeadObjectOutput
pub record Head : Type 0 where
  pub checksum_sha256 : Option String
  pub etag : Option String
  pub metadata : Map String

pub data S3Call : Type 0 where
  head_object delete_object : String → String → S3Call

-- The client that a region, an endpoint and the addressing style give.
pub record S3Client : Type 0 where
  pub region : Option String
  pub base_endpoint : Option String
  pub use_path_style : Bool

-- The SDK: LoadDefaultConfig, HeadObject and DeleteObject of a bucket and a key.
pub record Sdk : Type 0 where
  pub load_default_config : Option String → Result (Unit {0})
  pub head_object : List S3Call → S3Client → String → String → SdkResult Head
  pub delete_object : List S3Call → S3Client → String → String → SdkResult (Unit {0})

-- driver
pub record S3Driver : Type 0 where
  pub client : S3Client
  pub bucket : String

-- isNotFound
unfoldable pub is_not_found : SdkError → Bool
is_not_found e = elim e.code [
  | none ↦ false
  | some c ↦ c == "NotFound" || (c == "NoSuchKey" || c == "404")
]

abbrev pub is_quote : Char → Bool
is_quote c = equal (code c) 34

-- strings.TrimLeft
unfoldable pub trim_left : (Char → Bool) → String → String
trim_left cut String.[] = ""
trim_left cut (String.◌∷◌ c s) = if cut c then trim_left cut s else String.◌∷◌ c s

-- strings.Trim(s, `"`)
unfoldable pub trim_quotes : String → String
unfolding trim_left trim_right
trim_quotes s = trim_right is_quote (trim_left is_quote s)

-- Where an optional string is the empty one it is not set.
abbrev non_empty : String → Option String
non_empty s = if s == "" then none else some s

abbrev etag_digest : Option String → String
etag_digest none = ""
etag_digest (some etag) = "etag:" ++ trim_quotes etag

abbrev checksum_or : Option String → String → String
checksum_or none other = other
checksum_or (some c) other = if c == "" then other else "sha256-b64:" ++ c

-- The digest: a checksum that is not empty, else the ETag.
unfoldable pub digest_of : Head → String
digest_of head = checksum_or head.checksum_sha256 (etag_digest head.etag)

module _ (k : Toolkit) (sdk : Sdk) where
  -- factory, with store.s3 at hand
  abbrev build_driver : ArtifactClass → S3StoreSpec → Result S3Driver
  build_driver class cfg = elim (sdk.load_default_config (non_empty cfg.region)) [
    | err e ↦ err (record e {
      text = k.sprintf "class %s: load aws config: %w" (Arg.text class.name ∷ Arg.text e.text ∷ []);
    })
    | ok u ↦ ok (record {
      client = record {
        region = non_empty cfg.region;
        base_endpoint = non_empty cfg.endpoint;
        use_path_style = cfg.use_path_style;
      };
      bucket = cfg.bucket;
    })
  ]

  -- factory
  unfoldable pub new_driver : ArtifactClass → Result S3Driver
  new_driver class = elim class.store.s3 [
    | none ↦ err (
        errorf (
          k.sprintf "class %s: store.driver is s3 but store.s3 is not set"
            (Arg.text class.name ∷ [])))
    | some cfg ↦ build_driver class cfg
  ]

  abbrev failure : String → S3Driver → String → SdkError → Error
  failure format d key e =
      errorf (k.sprintf format (Arg.text d.bucket ∷ Arg.text key ∷ Arg.text e.text ∷ []))

  unfoldable pub observed : S3Driver → String → SdkResult Head → Result Observation
  observed d key (refused e) =
      if is_not_found e then ok no_observation else err (failure "head s3://%s/%s: %w" d key e)
  observed d key (answered head) = ok (record {
    exists = true;
    digest = digest_of head;
    metadata = publish k.to_lower head.metadata [];
  })

  -- Observe: a HeadObject, after the calls of the log.
  unfoldable pub observe : S3Driver → String → List S3Call → Result Observation × List S3Call
  observe d key log = (
    observed d key (sdk.head_object log d.client d.bucket key),
    S3Call.head_object d.bucket key ∷ log,
  )

  unfoldable pub deleted : S3Driver → String → SdkResult (Unit {0}) → Result (Unit {0})
  deleted d key (refused e) =
      if is_not_found e then ok tt else err (failure "delete s3://%s/%s: %w" d key e)
  deleted d key (answered u) = ok tt

  -- Delete
  unfoldable pub delete : S3Driver → String → List S3Call → Result (Unit {0}) × List S3Call
  delete d key log = (
    deleted d key (sdk.delete_object log d.client d.bucket key),
    S3Call.delete_object d.bucket key ∷ log,
  )

  -- The factory of Register: its drivers share nothing.
  unfoldable pub s3_factory : (Trace → List S3Call) → Factory
  s3_factory before tr class = elim (new_driver class) [
    | err e ↦ err e
    | ok d ↦ ok (adapt before (observe d) (delete d))
  ]

  -- Register
  unfoldable pub register_s3 : (Trace → List S3Call) → Registry → Registry
  register_s3 before = register "s3" (s3_factory before)
