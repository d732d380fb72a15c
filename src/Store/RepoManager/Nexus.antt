-- ===== src/Store/RepoManager/Nexus.antt =====
-- The Nexus half of repomanager.go.
use Prim.Native.String.{◌++◌}
use artifact_controller.Prelude.{ℕ, String, true, not, equal, List, [], ◌∷◌, if◌then◌else◌}
use artifact_controller.Prelude.Int.{pos}
use artifact_controller.Prelude.Result.{Result, ok, err, errorf, map_error}
use artifact_controller.Toolkit.{Toolkit, Arg}
use artifact_controller.Store.{Observation, no_observation}
use artifact_controller.Web.{Web, Log}
use artifact_controller.Web.Formats.{NexusAsset}
use artifact_controller.Web.Io.{Io, ◌>>=◌, pure, lift}
use artifact_controller.Store.RepoManager.Driver.{
  RepoDriver, base, prefixed_digest, exchange, delete_answer,
}

module _ (k : Toolkit) (w : Web) where
  unfoldable pub search_url : RepoDriver → String → String
  search_url d key =
      base d
      ++ ("/service/rest/v1/search/assets?repository="
          ++ (w.query_escape d.cfg.repository ++ ("&name=" ++ w.query_escape key)))

  -- The items of a search: none for a 404.
  unfoldable pub read_search : String → ℕ × String → Result (List NexusAsset)
  read_search failure (code, body) =
      if equal code 404
      then ok []
      else if not (equal code 200)
      then err (errorf failure)
      else map_error (λ e. k.sprintf "decode nexus response: %w" (Arg.text e ∷ []))
          (w.unmarshal_assets body)

  -- Nexus carries no metadata, so that its objects have no stamp.
  abbrev pub asset_shown : List NexusAsset → Observation
  asset_shown [] = no_observation
  asset_shown (item ∷ more) = record {
    exists = true;
    digest = prefixed_digest item.sha256;
    metadata = [];
  }

  -- observeNexus
  unfoldable pub observe_nexus : RepoDriver → String → Io Log Observation
  observe_nexus d key = do
    answer ← exchange k w d "GET" (search_url d key)
    items ← lift (
        read_search
          (k.sprintf "nexus returned %d for %s" (Arg.num (pos answer.0) ∷ Arg.text key ∷ []))
          answer)
    pure (asset_shown items)

  -- The deletion of the first item that the search found.
  unfoldable pub delete_found : RepoDriver → List NexusAsset → Io Log (Unit {0})
  delete_found d [] = pure tt
  delete_found d (item ∷ more) =
      exchange k w d "DELETE" (base d ++ ("/service/rest/v1/assets/" ++ w.path_escape item.id))
      >>= λ answer. lift (delete_answer k w "nexus delete returned %d" answer)

  -- deleteNexus
  unfoldable pub delete_nexus : RepoDriver → String → Io Log (Unit {0})
  delete_nexus d key = do
    answer ← exchange k w d "GET" (search_url d key)
    items ←
        lift
          (read_search (k.sprintf "nexus search returned %d" (Arg.num (pos answer.0) ∷ [])) answer)
    delete_found d items
