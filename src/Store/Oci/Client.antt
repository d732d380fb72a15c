-- ===== src/Store/Oci/Client.antt =====
-- go-containerregistry: references, manifests and the errors of a registry.
use artifact_controller.Prelude.{ℕ, String, Bool, Option, List}
use artifact_controller.Prelude.Maps.{Map}
use artifact_controller.Prelude.Result.{Result}

-- The error codes that the driver tells apart; `other` is any other.
pub data ErrorCode : Type 0 where
  manifest_unknown name_unknown unsupported : ErrorCode
  other : String → ErrorCode

-- transport.Error
pub record TransportError : Type 0 where
  pub status_code : ℕ
  pub codes : List ErrorCode

-- An error of a remote call; `transport` is what errors.As finds in it.
pub record RemoteError : Type 0 where
  pub text : String
  pub transport : Option TransportError

pub data RemoteResult (A : Type 0) : Type 0 where
  failed : RemoteError → RemoteResult A
  done : A → RemoteResult A

pub data MediaType : Type 0 where
  oci_manifest_schema1 docker_manifest_schema2 : MediaType
  other : String → MediaType

-- remote.Descriptor; `image` is what Image gives.
pub record Descriptor : Type 0 where
  pub digest : String
  pub manifest : String
  pub media_type : MediaType
  pub image : Result String

-- A call of the registry.
pub data RemoteCall : Type 0 where
  get head delete config : String → RemoteCall

abbrev pub Calls : Type 0
Calls = List RemoteCall

pub record Remote : Type 0 where
  -- name.NewRepository, name.NewTag and name.NewDigest, with name.Insecure where that is asked for
  pub new_repository : Bool → String → Result String
  pub new_tag : Bool → String → Result String
  pub new_digest : Bool → String → Result String
  -- json.Unmarshal of a manifest's annotations
  pub unmarshal_annotations : String → Result (Map String)
  -- remote.Get, remote.Head (the digest), remote.Delete, and ConfigFile (the labels)
  pub get : Calls → String → RemoteResult Descriptor
  pub head : Calls → String → RemoteResult String
  pub delete : Calls → String → RemoteResult (Unit {0})
  pub config_labels : Calls → String → Result (Map String)
