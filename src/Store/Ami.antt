-- ===== src/Store/Ami.antt =====
-- internal/store/ami/ami.go: machine images over the EC2 Query API.
pub mod Queries
pub mod Deleting
use Prim.Native.String.{◌++◌}
use artifact_controller.Prelude.{
  ℕ, String, Bool, not, ◌==◌, Option, none, some, List, [], ◌∷◌, if◌then◌else◌,
}
use artifact_controller.Prelude.Int.{pos}
use artifact_controller.Prelude.Maps.{Map, insert, get_text}
use artifact_controller.Prelude.Result.{Error, Result, ok, err, errorf, map_error}
use artifact_controller.Api.ArtifactClass.{ArtifactClass}
use artifact_controller.Toolkit.{Toolkit, Arg}
use artifact_controller.Calls.{Trace}
use artifact_controller.Store.{Observation, no_observation, Factory, Registry, register}
use artifact_controller.Store.Adapter.{adapt}
use artifact_controller.Store.Http.{is_success}
use artifact_controller.Store.Metadata.{publish}
use artifact_controller.Web.{Web, Log, WebRequest, Event}
use artifact_controller.Web.Formats.{Ec2Image, Ec2Failure}
use artifact_controller.Web.Io.{Io, ◌>>=◌, ◌>>◌, pure, lift, call}
use artifact_controller.Web.Signing.{sign}
use artifact_controller.Web.Texts.{set_header}

abbrev pub ec2_api_version : String
ec2_api_version = "2016-11-15"

-- maxBody
abbrev pub ec2_max_body : ℕ
ec2_max_body = 1048576

-- driver: the sign field is awsauth.Sign.
pub record AmiDriver : Type 0 where
  pub endpoint : String
  pub region : String
  pub owner : String
  pub delete_snapshots : Bool

-- ownerOr
abbrev pub owner_or : String → String
owner_or v = if v == "" then "self" else v

-- The snapshots that a class asks to delete, collected before the image goes.
unfoldable pub filled : List String → List String
filled [] = []
filled (id ∷ ids) = let rest = filled ids in if id == "" then rest else id ∷ rest

abbrev first_image : List Ec2Image → Option Ec2Image
first_image [] = none
first_image (image ∷ images) = some image

module _ (k : Toolkit) (w : Web) where
  -- factory
  unfoldable pub new_driver : ArtifactClass → Result AmiDriver
  new_driver class = elim class.store.ami [
    | none ↦ err (
        errorf (
          k.sprintf "class %s: store.driver is ami but store.ami is not set"
            (Arg.text class.name ∷ [])))
    | some cfg ↦
        if cfg.region == ""
        then err
            (errorf (k.sprintf "class %s: store.ami.region is required" (Arg.text class.name ∷ [])))
        else ok (record {
          endpoint = "https://ec2." ++ (cfg.region ++ ".amazonaws.com/");
          region = cfg.region;
          owner = owner_or cfg.owner;
          delete_snapshots = cfg.delete_snapshots;
        })
  ]

  -- The request of call, before its signature.
  unfoldable pub query_request : AmiDriver → Map String → WebRequest
  query_request d params =
      set_header w "Content-Type" "application/x-www-form-urlencoded; charset=utf-8" (record {
        method = "POST";
        url = d.endpoint;
        headers = [];
        body = some (w.encode_form (insert "Version" ec2_api_version params));
      })

  -- The error of a refusal: EC2's code and message where there are any.
  abbrev refusal : String → ℕ → Result (List Ec2Failure) → Error
  refusal action code (ok (e ∷ more)) =
      errorf
        (k.sprintf "ec2 %s: %s: %s" (Arg.text action ∷ Arg.text e.code ∷ Arg.text e.message ∷ []))
  refusal action code other =
      errorf (k.sprintf "ec2 %s returned %d" (Arg.text action ∷ Arg.num (pos code) ∷ []))

  unfoldable pub check_code : String → ℕ → String → Result String
  check_code action code raw =
      if not (is_success code) then err (refusal action code (w.unmarshal_failures raw)) else ok raw

  -- call, less the decoding of an answer that is wanted: the raw answer.
  unfoldable pub query : AmiDriver → Map String → Io Log String
  query d params = do
    lift (
        map_error (λ e. k.sprintf "build request: %w" (Arg.text e ∷ []))
          (w.check_request "POST" d.endpoint))
    request ← sign k w (query_request d params) d.region "ec2"
    reply ← call (Event.sent request) (λ log.
        map_error
          (λ e. k.sprintf "ec2 %s: %w" (Arg.text (get_text "Action" params) ∷ Arg.text e ∷ []))
          (w.send log request))
    raw ← lift (
        map_error (λ e. k.sprintf "read ec2 response: %w" (Arg.text e ∷ []))
          (reply.read ec2_max_body))
    lift (check_code (get_text "Action" params) reply.code raw)

  unfoldable pub describe_params : AmiDriver → String → Map String
  describe_params d key =
      ("Action", "DescribeImages")
      ∷ ("Owner.1", d.owner)
      ∷ ("Filter.1.Name", "name")
      ∷ ("Filter.1.Value.1", key)
      ∷ []

  -- The end of call, where it decodes an answer: the images of a describeImagesResponse.
  abbrev decode_images : String → Result (List Ec2Image)
  decode_images raw =
      map_error (λ e. k.sprintf "decode ec2 response: %w" (Arg.text e ∷ []))
        (w.unmarshal_images raw)

  -- describe: the first image of that name.
  unfoldable pub describe : AmiDriver → String → Io Log (Option Ec2Image)
  describe d key = do
    raw ← query d (describe_params d key)
    images ← lift (decode_images raw)
    pure (first_image images)

  -- What an image shows: one that is not available does not exist yet.
  unfoldable pub image_shown : Option Ec2Image → Observation
  image_shown none = no_observation
  image_shown (some image) = record {
    exists = image.state == "available";
    digest = image.image_id;
    metadata = publish k.to_lower image.tags [];
  }

  -- Observe
  unfoldable pub observe : AmiDriver → String → Io Log Observation
  observe d key = describe d key >>= λ image. pure (image_shown image)

  unfoldable pub deregister_params : String → Map String
  deregister_params image_id = ("Action", "DeregisterImage") ∷ ("ImageId", image_id) ∷ []

  unfoldable pub snapshot_params : String → Map String
  snapshot_params id = ("Action", "DeleteSnapshot") ∷ ("SnapshotId", id) ∷ []

  -- A deletion of a snapshot whose failure names the image.
  abbrev delete_snapshot : AmiDriver → String → String → Io Log String
  delete_snapshot d image_id id log =
      let (answer, log') = query d (snapshot_params id) log in
      (
        map_error
            (λ e.
              k.sprintf "image %s deregistered but snapshot %s remains: %w"
                (Arg.text image_id ∷ Arg.text id ∷ Arg.text e ∷ []))
            answer,
        log',
      )

  -- The loop over the snapshots; the first failure ends it.
  unfoldable pub delete_each : AmiDriver → String → List String → Io Log (Unit {0})
  delete_each d image_id [] = pure tt
  delete_each d image_id (id ∷ ids) = delete_snapshot d image_id id >> delete_each d image_id ids

  -- Delete, for the image that was found.
  unfoldable pub delete_image : AmiDriver → Option Ec2Image → Io Log (Unit {0})
  delete_image d none = pure tt
  delete_image d (some image) =
      query d (deregister_params image.image_id)
      >> delete_each d image.image_id (if d.delete_snapshots then filled image.snapshots else [])

  -- Delete
  unfoldable pub delete : AmiDriver → String → Io Log (Unit {0})
  delete d key = describe d key >>= delete_image d

  -- The factory of Register: its drivers share nothing.
  unfoldable pub ami_factory : (Trace → Log) → Factory
  ami_factory before tr class = elim (new_driver class) [
    | err e ↦ err e
    | ok d ↦ ok (adapt before (observe d) (delete d))
  ]

  -- Register
  unfoldable pub register_ami : (Trace → Log) → Registry → Registry
  register_ami before = register "ami" (ami_factory before)
