-- ===== src/Store/Ami/Deleting.antt =====
-- What the ami driver's deletion has done when it succeeds.
use artifact_controller.Prelude.{String, ◌≡◌, Option, none, some, List, [], ◌∷◌, if◌then◌else◌, map}
use artifact_controller.Prelude.Maps.{Map, lookup}
use artifact_controller.Toolkit.{Toolkit}
use artifact_controller.Web.{Web, Log}
use artifact_controller.Web.Formats.{Ec2Image}
use artifact_controller.Store.Ami.Queries.{Queried}
use artifact_controller.Store.Ami.{AmiDriver, filled}

module _ (k : Toolkit) (w : Web) where
  -- A query that a deletion makes: its action, and the name and value of its argument.
  abbrev pub Step : Type 0
  Step = String × String × String

  abbrev pub snapshot_step : String → Step
  snapshot_step id = ("DeleteSnapshot", "SnapshotId", id)

  -- The queries that a deletion makes after the image was found.
  abbrev pub plan : AmiDriver → Option Ec2Image → List Step
  plan d none = []
  plan d (some image) =
      ("DeregisterImage", "ImageId", image.image_id)
      ∷ map snapshot_step (if d.delete_snapshots then filled image.snapshots else [])

  -- EC2 confirmed a query for the step.
  pub record Confirmed (d : AmiDriver) (step : Step) (before after : Log) : Type 0 where
    pub params : Map String
    pub action : lookup "Action" params ≡ some step.0
    pub argument : lookup step.1 params ≡ some step.2
    pub raw : String
    pub answer : Queried k w d params before raw after

  -- The queries were made in this order, one after the other, and EC2 confirmed each.
  abbrev pub Ran : AmiDriver → List Step → Log → Log → Type 0
  Ran d [] before after = after ≡ before
  Ran d (step ∷ more) before after =
      (next : Log) × Confirmed d step before next × Ran d more next after
