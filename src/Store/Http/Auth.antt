-- ===== src/Store/Http/Auth.antt =====
-- internal/store/httpstore/auth.go and auth_aws.go: the authorization of a request.
use artifact_controller.Prelude.{String, not, ◌==◌, none, some, [], ◌∷◌, if◌then◌else◌}
use Prim.Native.String.{◌++◌}
use artifact_controller.Prelude.Maps.{Map}
use artifact_controller.Prelude.Result.{errorf, map_error}
use artifact_controller.Api.ArtifactClass.{HttpAuthSpec, HttpAuthType}
use artifact_controller.Toolkit.{Toolkit, Arg}
use artifact_controller.Web.{Web, WebRequest, Event, Log}
use artifact_controller.Web.Io.{Io, ◌>>=◌, pure, raise, lift, call}
use artifact_controller.Web.Signing.{sign_checked}
use artifact_controller.Web.Texts.{set_header}
use artifact_controller.Store.Http.State.{HttpDriver, HttpState, outside}
use artifact_controller.Store.Http.Secrets.{key_or, require_key}
use artifact_controller.Store.Http.Tokens.{client_credentials_token}

-- The value of an HTTPAuthType.
abbrev auth_name : HttpAuthType → String
auth_name HttpAuthType.unset = ""
auth_name HttpAuthType.no_auth = "none"
auth_name HttpAuthType.bearer = "bearer"
auth_name HttpAuthType.basic = "basic"
auth_name HttpAuthType.header = "header"
auth_name HttpAuthType.sig_v4 = "sigv4"
auth_name HttpAuthType.client_credentials = "clientCredentials"
auth_name (HttpAuthType.other name) = name

module _ (k : Toolkit) (w : Web) where
  -- signSigV4: behind its checks it is the code of awsauth.Sign.
  unfoldable pub sign_sig_v4 : HttpAuthSpec → WebRequest → Io Log WebRequest
  sign_sig_v4 auth request =
      if auth.region == ""
      then raise (errorf "auth type sigv4 requires store.http.auth.region")
      else if auth.service == ""
      then raise
          (errorf "auth type sigv4 requires store.http.auth.service (e.g. s3, execute-api, es)")
      else sign_checked k w request auth.region auth.service

  -- The switch of authorize, with the secret read.
  unfoldable pub apply_scheme :
      HttpAuthType → HttpAuthSpec → Map String → WebRequest → Io HttpState WebRequest
  apply_scheme HttpAuthType.bearer auth entries request = do
    token ← lift (require_key k entries (key_or auth.token_key "token"))
    pure (set_header w "Authorization" ("Bearer " ++ token) request)
  apply_scheme HttpAuthType.basic auth entries request = do
    user ← lift (require_key k entries (key_or auth.username_key "username"))
    pass ← lift (require_key k entries (key_or auth.password_key "password"))
    pure (set_header w "Authorization" ("Basic " ++ w.base64 (user ++ (":" ++ pass))) request)
  apply_scheme HttpAuthType.client_credentials auth entries request = do
    token ← client_credentials_token k w auth entries
    pure (set_header w "Authorization" ("Bearer " ++ token) request)
  apply_scheme HttpAuthType.header auth entries request = do
    value ← lift (require_key k entries (key_or auth.token_key "token"))
    pure (set_header w (key_or auth.header_name "Authorization") value request)
  apply_scheme scheme auth entries request =
      raise (errorf (k.sprintf "unsupported auth type %q" (Arg.text (auth_name scheme) ∷ [])))

  -- A scheme that takes its credential from a secret.
  unfoldable pub with_secret : HttpDriver → HttpAuthSpec → WebRequest → Io HttpState WebRequest
  with_secret d auth request = elim auth.secret_ref [
    | none ↦ raise (
        errorf (
          k.sprintf "auth type %q requires store.http.auth.secretRef"
            (Arg.text (auth_name auth.type) ∷ [])))
    | some name ↦
        if not d.has_secrets
        then raise (
            errorf (
              k.sprintf "auth type %q configured but no secret resolver is available"
                (Arg.text (auth_name auth.type) ∷ [])))
        else (outside (
              call (Event.secret name) (λ log.
                map_error (λ e. k.sprintf "read secret %q: %w" (Arg.text name ∷ Arg.text e ∷ []))
                  (w.secret log name)))
            >>= λ entries. apply_scheme auth.type auth entries request)
  ]

  -- authorize, with the type of its scheme.
  unfoldable pub authorize_by :
      HttpAuthType → HttpDriver → HttpAuthSpec → WebRequest → Io HttpState WebRequest
  authorize_by HttpAuthType.unset d auth request = pure request
  authorize_by HttpAuthType.no_auth d auth request = pure request
  authorize_by HttpAuthType.sig_v4 d auth request = outside (sign_sig_v4 auth request)
  authorize_by scheme d auth request = with_secret d auth request

  -- authorize
  unfoldable pub authorize : HttpDriver → WebRequest → Io HttpState WebRequest
  authorize d request = elim d.cfg.auth [
    | none ↦ pure request
    | some auth ↦ authorize_by auth.type d auth request
  ]
