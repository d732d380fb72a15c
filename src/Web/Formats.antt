-- ===== src/Web/Formats.antt =====
-- The structs into which the drivers decode answers, with the fields that they declare.
use artifact_controller.Prelude.{String, List}
use artifact_controller.Prelude.Int.{ℤ}
use artifact_controller.Prelude.Maps.{Map}

-- The token endpoint's answer, less its token type, which nothing reads.
pub record TokenAnswer : Type 0 where
  pub access_token : String
  pub expires_in : ℤ

-- The answer of Artifactory's storage API.
pub record StorageInfo : Type 0 where
  pub sha256 : String
  pub properties : Map (List String)

-- An item of nexusAssets.
pub record NexusAsset : Type 0 where
  pub id : String
  pub path : String
  pub sha256 : String

-- ec2Image; `snapshots` are the snapshot ids of its block devices.
pub record Ec2Image : Type 0 where
  pub image_id : String
  pub name : String
  pub state : String
  pub tags : Map String
  pub snapshots : List String

-- An item of ec2Error.
pub record Ec2Failure : Type 0 where
  pub code : String
  pub message : String
