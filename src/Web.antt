-- ===== src/Web.antt =====
-- The code outside the repository that the store drivers call: net/http, net/url, the encodings,
-- the CEL library at response variables, the AWS SDK's credentials and signer, and the secrets of
-- the controller's namespace. The answers to calls are functions of the calls made so far.
pub mod Formats
pub mod Io
pub mod Signing
pub mod Texts
use artifact_controller.Prelude.{ℕ, String, Bool, Option, List, ◌*◌}
use artifact_controller.Prelude.Int.{ℤ}
use artifact_controller.Prelude.Maps.{Map}
use artifact_controller.Prelude.Result.{Error, Result}
use artifact_controller.Api.Json.{Value}
use artifact_controller.Web.Formats.{TokenAnswer, StorageInfo, NexusAsset, Ec2Image, Ec2Failure}

-- http.Request: a missing body is `none`. Header names are canonical.
pub record WebRequest : Type 0 where
  pub method : String
  pub url : String
  pub headers : Map String
  pub body : Option String

-- http.Response; `read n` is io.ReadAll(io.LimitReader(Body, n)).
pub record Reply : Type 0 where
  pub code : ℕ
  pub headers : Map String
  pub read : ℕ → Result String

-- A call to the world outside.
pub data Event : Type 0 where
  sent : WebRequest → Event
  secret : String → Event
  clock : Event
  aws_config : String → Event
  aws_credentials : Event

abbrev pub Log : Type 0
Log = List Event

-- The response as CEL expressions see it: httpstore.response.
pub record Response : Type 0 where
  pub code : ℕ
  pub headers : Map String
  pub body : String
  pub json : Value

-- A Go value that an expression gives; `other` is any value but a bool, a string or nil.
pub data Outcome : Type 0 where
  bool : Bool → Outcome
  text : String → Outcome
  nothing : Outcome
  other : String → Outcome

pub record Web : Type 1 where
  -- base64.StdEncoding.EncodeToString, url.QueryEscape, url.PathEscape, url.Values.Encode
  pub base64 : String → String
  pub query_escape : String → String
  pub path_escape : String → String
  pub encode_form : List (String × String) → String
  -- textproto.CanonicalMIMEHeaderKey, with which Header.Set files a name
  pub canonical_header : String → String
  -- what http.NewRequest checks of a method and a URL
  pub check_request : String → String → Result (Unit {0})
  -- template.Execute over struct{ Key string }, after the toolkit's parse_template
  pub execute_url : String → String → Result String
  -- json.Unmarshal and xml.Unmarshal into interface{} and into the structs of the drivers
  pub unmarshal_any : String → Result Value
  pub unmarshal_token : String → Result TokenAnswer
  pub unmarshal_storage : String → Result StorageInfo
  pub unmarshal_assets : String → Result (List NexusAsset)
  pub unmarshal_images : String → Result (List Ec2Image)
  pub unmarshal_failures : String → Result (List Ec2Failure)
  -- cel.NewEnv over the variables of a response, Compile, Program, Eval and Value
  pub new_env : Result (Unit {0})
  pub Ast : Type 0
  pub Program : Type 0
  pub compile : String → Result Ast
  pub program : Ast → Result Program
  pub eval : Program → Response → Result Outcome
  -- fmt.Sprintf("%T", ·), and fmt.Sprintf("%v", ·) on a value that is neither a string nor nil
  pub type_name : Outcome → String
  pub format_value : Outcome → String
  -- http.Client.Do
  pub send : Log → WebRequest → Result Reply
  -- SecretResolver
  pub secret : Log → String → Result (Map String)
  -- time.Now
  pub now : Log → ℤ
  -- config.LoadDefaultConfig for a region, Credentials.Retrieve, and v4.Signer.SignHTTP for a
  -- payload hash, a service, a region and a time
  pub AwsConfig : Type 0
  pub Credentials : Type 0
  pub load_aws_config : Log → String → Result AwsConfig
  pub retrieve : Log → AwsConfig → Result Credentials
  pub sign_http : Credentials → WebRequest → String → String → String → ℤ → Result WebRequest

abbrev pub max_body : ℕ
max_body = 65536
