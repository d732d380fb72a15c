-- ===== src/Store/RepoManager/Driver.antt =====
-- The driver value of repomanager.go: its construction, its credential and its requests.
use Prim.Native.String.{◌++◌}
use artifact_controller.Prelude.{
  ℕ, String, Bool, not, ◌==◌, ◌&&◌, ◌||◌, equal, Option, none, some, [], ◌∷◌, ◌*◌, if◌then◌else◌,
}
use artifact_controller.Prelude.Int.{ℤ, pos, ltb_ℤ, second}
use artifact_controller.Prelude.Maps.{Map, get_text}
use artifact_controller.Prelude.Result.{Result, ok, err, errorf, map_error}
use artifact_controller.Api.ArtifactClass.{ArtifactClass, RepoManagerStoreSpec, stamp_metadata_key}
use artifact_controller.Toolkit.{Toolkit, Arg}
use artifact_controller.Store.Http.{is_success}
use artifact_controller.Web.{Web, Log, WebRequest, Event, max_body}
use artifact_controller.Web.Io.{Io, ◌>>=◌, ◌>>◌, pure, raise, lift, call}
use artifact_controller.Web.Texts.{set_header, trim_newlines, trim_right, is_slash}

-- flavour
pub data Flavour : Type 0 where
  artifactory nexus : Flavour

-- driver; `auth` sets the credential of a request.
pub record RepoDriver : Type 0 where
  pub flavour : Flavour
  pub cfg : RepoManagerStoreSpec
  pub timeout : ℤ
  pub auth : WebRequest → WebRequest
  pub stamp_key : String

-- timeoutOr
abbrev pub timeout_or : Option ℤ → ℤ
timeout_or none = pos (30 * second)
timeout_or (some d) = if ltb_ℤ (pos 0) d then d else pos (30 * second)

-- base
unfoldable pub base : RepoDriver → String
unfolding trim_right
base d = trim_right is_slash d.cfg.base_url

abbrev pub prefixed_digest : String → String
prefixed_digest sha256 = if sha256 == "" then "" else "sha256:" ++ sha256

module _ (k : Toolkit) (w : Web) where
  -- The switch of authFrom: an API key, else a token, else a user and a password.
  unfoldable pub pick_auth : String → String → String → String → Result (WebRequest → WebRequest)
  pick_auth api_key token username password =
      if not (api_key == "")
      then ok (set_header w "X-JFrog-Art-Api" api_key)
      else if not (token == "")
      then ok (set_header w "Authorization" ("Bearer " ++ token))
      else if not (username == "") && not (password == "")
      then ok (set_header w "Authorization" ("Basic " ++ w.base64 (username ++ (":" ++ password))))
      else err (errorf "secret carries none of apiKey, token, or username+password")

  -- The closure `get` of authFrom.
  abbrev trimmed : String → Map String → String
  trimmed key entries = trim_newlines (get_text key entries)

  -- authFrom
  unfoldable pub auth_from : Map String → Result (WebRequest → WebRequest)
  auth_from entries =
      pick_auth (trimmed "apiKey" entries) (trimmed "token" entries) (trimmed "username" entries)
        (trimmed "password" entries)

  -- The errors of newDriver name the class.
  abbrev of_class {ℓ} : {A : Type ℓ} → ArtifactClass → String → Result A → Result A
  of_class class format = map_error (λ e. k.sprintf format (Arg.text class.name ∷ Arg.text e ∷ []))

  -- The credential of a class: none without a secretRef.
  unfoldable pub read_auth : Bool → ArtifactClass → Option String → Io Log (WebRequest → WebRequest)
  read_auth has_secrets class none = pure (λ request. request)
  read_auth has_secrets class (some name) =
      if not has_secrets
      then raise (
          errorf (
            k.sprintf "class %s: secretRef set but no secret resolver is available"
              (Arg.text class.name ∷ [])))
      else (call (Event.secret name) (λ log.
            map_error
              (λ e.
                k.sprintf "class %s: read secret %q: %w"
                  (Arg.text class.name ∷ Arg.text name ∷ Arg.text e ∷ []))
              (w.secret log name))
          >>= λ entries. lift (of_class class "class %s: %w" (auth_from entries)))

  -- newDriver, with store.repoManager at hand.
  unfoldable pub build_driver :
      Bool → ArtifactClass → Flavour → RepoManagerStoreSpec → Io Log RepoDriver
  build_driver has_secrets class f cfg =
      if cfg.base_url == "" || cfg.repository == ""
      then raise (
          errorf (
            k.sprintf "class %s: store.repoManager needs both baseURL and repository"
              (Arg.text class.name ∷ [])))
      else (read_auth has_secrets class cfg.secret_ref >>= λ auth. pure (record {
        flavour = f;
        cfg = cfg;
        timeout = timeout_or cfg.timeout;
        auth = auth;
        stamp_key = stamp_metadata_key k.to_lower class;
      }))

  -- newDriver
  unfoldable pub new_driver : Bool → ArtifactClass → Flavour → Io Log RepoDriver
  new_driver has_secrets class f = elim class.store.repo_manager [
    | none ↦ raise (
        errorf (
          k.sprintf "class %s: store.driver is %s but store.repoManager is not set"
            (Arg.text class.name ∷ Arg.text class.store.driver ∷ [])))
    | some cfg ↦ build_driver has_secrets class f cfg
  ]

  -- The request of do: Accept, then the credential.
  unfoldable pub repo_request : RepoDriver → String → String → WebRequest
  repo_request d method url = d.auth (
      set_header w "Accept" "application/json"
        (record { method = method; url = url; headers = []; body = none }))

  -- do
  unfoldable pub exchange : RepoDriver → String → String → Io Log (ℕ × String)
  exchange d method url = do
    lift (
        map_error (λ e. k.sprintf "build request: %w" (Arg.text e ∷ []))
          (w.check_request method url))
    reply ← call (Event.sent (repo_request d method url)) (λ log.
        map_error (λ e. k.sprintf "%s %s: %w" (Arg.text method ∷ Arg.text url ∷ Arg.text e ∷ []))
          (w.send log (repo_request d method url)))
    body ←
        lift
          (map_error (λ e. k.sprintf "read response: %w" (Arg.text e ∷ [])) (reply.read max_body))
    pure (reply.code, body)

  -- A deletion that was answered; 404 means that the object is gone already.
  abbrev pub delete_answer : String → ℕ × String → Result (Unit {0})
  delete_answer format (code, body) =
      if equal code 404 || is_success code
      then ok tt
      else err (errorf (k.sprintf format (Arg.num (pos code) ∷ [])))
