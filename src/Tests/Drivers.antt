-- ===== src/Tests/Drivers.antt =====
-- The theorems on the other store drivers and on their registry at concrete inputs.
use mathlib.Core.List.Perm
use Prim.Native.String.{◌++◌}
use artifact_controller.Prelude.{String, ◌≡◌, refl, some, none, [], ◌∷◌, arith, true, inl, eq_iff}
use artifact_controller.Prelude.Maps.{Map, lookup, insert, get_text}
use artifact_controller.Web.Texts.{set_header, trim_newlines, trim_right}
use artifact_controller.Store.RepoManager.Nexus.{observe_nexus, read_search}
use artifact_controller.Prelude.Result.{ok}
use artifact_controller.Api.ArtifactClass.{stamp_metadata_key}
use artifact_controller.Store.{Observation}
use artifact_controller.Store.Metadata.{publish}
use artifact_controller.Store.Metadata.Order.{Lowered, publish-Lowered}
use artifact_controller.Store.Oci
use artifact_controller.Store.Oci.Client.{RemoteCall}
use artifact_controller.Store.Oci.Observing.{Answered, observe-Answered}
use artifact_controller.Store.Oci.Deleting.{Deleted, delete-Deleted}
use artifact_controller.Store.Ami
use artifact_controller.Store.RepoManager
use artifact_controller.Store.RepoManager.Driver.{
  Flavour, RepoDriver, repo_request, exchange, auth_from, pick_auth, read_auth, build_driver,
  new_driver,
}
use artifact_controller.Store.RepoManager.Observing.{Told, observe-Told}
use artifact_controller.Store.RepoManager.Credentials.{Carries, repo_request-Carries}
use artifact_controller.Store.S3.{digest_of}
use artifact_controller.Store.S3.Etag.{quoted, digest_of-etag}
use artifact_controller.Tests.Tools.{toolkit}
use artifact_controller.Tests.WebTools.{web, remote, oci_driver, repo_spec, repo_driver, repo_class}

abbrev entries : Map String
entries = ("a", "1") ∷ ("b", "2") ∷ []

abbrev reversed : Map String
reversed = ("b", "2") ∷ ("a", "1") ∷ []

publish-Lowered_example :
    Lowered (λ s. s) "b" entries [] (lookup "b" (publish (λ s. s) reversed []))
publish-Lowered_example =
    publish-Lowered (λ s. s) "b" entries reversed [] (Perm.swap ("b", "2") ("a", "1") [])
      (((λ e. ground (arith, e, eq_iff "b" "a")), tt), (tt, tt))
      (((λ e. ground (arith, e, eq_iff "a" "b")), tt), (tt, tt))

abbrev labelled : Observation
labelled = record {
  exists = true;
  digest = "sha256:d1";
  metadata = ("Title", "a") ∷ ("Stamp", "sha256:h") ∷ ("title", "b") ∷ [];
}

observe-Answered_example :
    (ref : String) × (Oci.tag toolkit remote oci_driver "a" ≡ ok ref)
    × Answered toolkit remote oci_driver ref
        (remote.get [] ref)
        labelled
        (RemoteCall.get ref ∷ [])
        (Oci.observe toolkit remote oci_driver "a" []).1
unfolding Oci.observe Oci.tag Oci.observed Oci.metadata_of lookup publish insert Oci.with_labels
    Oci.add_missing
observe-Answered_example = observe-Answered toolkit remote oci_driver "a" [] labelled refl

delete-Deleted_example :
    (ref : String) × (Oci.tag toolkit remote oci_driver "a" ≡ ok ref)
    × Deleted toolkit remote oci_driver ref
        (remote.head [] ref)
        (RemoteCall.head ref ∷ [])
        (Oci.delete toolkit remote oci_driver "a" []).1
unfolding Oci.delete Oci.tag Oci.delete_resolved Oci.delete_ref
delete-Deleted_example = delete-Deleted toolkit remote oci_driver "a" [] refl

abbrev asset : Observation
asset = record { exists = true; digest = "sha256:d1"; metadata = [] }

observe-Told_example : Told toolkit web Flavour.nexus repo_driver "a" [] true
unfolding RepoManager.observe observe_nexus exchange read_search
observe-Told_example = observe-Told toolkit web repo_driver "a" [] asset refl

digest_of-etag_example :
    digest_of (record { checksum_sha256 = none; etag = some (quoted "d41d"); metadata = [] })
    ≡ "etag:" ++ "d41d"
digest_of-etag_example =
    digest_of-etag (record { checksum_sha256 = none; etag = some (quoted "d41d"); metadata = [] })
      "d41d" (inl refl) refl (refl, (refl, (refl, (refl, tt))))

-- The driver that the class's secret gives.
abbrev built : RepoDriver
built = record repo_driver { auth = set_header web "Authorization" "Bearer s" }

repo_request-Carries_example :
    Carries toolkit web (repo_request toolkit web built "GET" "https://nexus/")
unfolding new_driver build_driver read_auth auth_from pick_auth trim_newlines trim_right get_text
    lookup stamp_metadata_key
repo_request-Carries_example =
    repo_request-Carries toolkit web true repo_class Flavour.nexus repo_spec "creds" [] built "GET"
      "https://nexus/" refl refl refl
