-- ===== src/Store/RepoManager/Artifactory.antt =====
-- The Artifactory half of repomanager.go.
use Prim.Native.String.{◌++◌}
use artifact_controller.Prelude.{ℕ, String, true, not, equal, List, [], ◌∷◌, if◌then◌else◌}
use artifact_controller.Prelude.Int.{pos}
use artifact_controller.Prelude.Maps.{Map}
use artifact_controller.Prelude.Result.{Result, ok, err, errorf}
use artifact_controller.Toolkit.{Toolkit, Arg}
use artifact_controller.Store.{Observation, no_observation}
use artifact_controller.Store.Metadata.{publish}
use artifact_controller.Web.{Web, Log}
use artifact_controller.Web.Formats.{StorageInfo}
use artifact_controller.Web.Io.{Io, ◌>>=◌, lift}
use artifact_controller.Store.RepoManager.Driver.{
  RepoDriver, base, prefixed_digest, exchange, delete_answer,
}

-- Properties are multi-valued: the first value, where there is one.
unfoldable pub first_values : Map (List String) → Map String
first_values [] = []
first_values ((name, []) ∷ rest) = first_values rest
first_values ((name, v ∷ more) ∷ rest) = (name, v) ∷ first_values rest

module _ (k : Toolkit) (w : Web) where
  unfoldable pub storage_url : RepoDriver → String → String
  storage_url d key =
      base d ++ ("/api/storage/" ++ (d.cfg.repository ++ ("/" ++ (key ++ "?properties"))))

  -- What an answer of the storage API shows.
  unfoldable pub storage_shown : StorageInfo → Observation
  storage_shown out = record {
    exists = true;
    digest = prefixed_digest out.sha256;
    metadata = publish k.to_lower (first_values out.properties) [];
  }

  unfoldable pub read_storage : String → ℕ × String → Result Observation
  read_storage key (code, body) =
      if equal code 404
      then ok no_observation
      else if not (equal code 200)
      then err (
          errorf
            (k.sprintf "artifactory returned %d for %s" (Arg.num (pos code) ∷ Arg.text key ∷ [])))
      else elim (w.unmarshal_storage body) [
        | err e ↦
            err (record e {
              text = k.sprintf "decode artifactory response: %w" (Arg.text e.text ∷ []);
            })
        | ok out ↦ ok (storage_shown out)
      ]

  -- observeArtifactory
  unfoldable pub observe_artifactory : RepoDriver → String → Io Log Observation
  observe_artifactory d key =
      exchange k w d "GET" (storage_url d key) >>= λ answer. lift (read_storage key answer)

  -- deleteArtifactory
  unfoldable pub delete_artifactory : RepoDriver → String → Io Log (Unit {0})
  delete_artifactory d key =
      exchange k w d "DELETE" (base d ++ ("/" ++ (d.cfg.repository ++ ("/" ++ key)))) >>= λ answer.
      lift (delete_answer k w "artifactory delete returned %d" answer)
