-- ===== src/Store/Http/Tokens.antt =====
-- internal/store/httpstore/auth_oauth.go: the client-credentials exchange and its token cache.
pub mod Cache
use artifact_controller.Prelude.{
  ℕ, String, Bool, not, ◌==◌, equal, Option, none, some, List, [], ◌∷◌, ◌++◌, ◌*◌, if◌then◌else◌,
}
use artifact_controller.Prelude.Int.{ℤ, pos, ltb_ℤ, leb_ℤ, ◌+ℤ◌, mul64, sub64, second}
use artifact_controller.Prelude.Maps.{Map}
use artifact_controller.Prelude.Result.{Error, Result, ok, err, errorf, map_error}
use artifact_controller.Api.ArtifactClass.{HttpAuthSpec}
use artifact_controller.Toolkit.{Toolkit, Arg}
use artifact_controller.Store.Names.{join}
use artifact_controller.Web.{Web, WebRequest, Reply, Event, max_body}
use artifact_controller.Web.Formats.{TokenAnswer}
use artifact_controller.Web.Io.{Io, ◌>>=◌, ◌>>◌, pure, raise, lift, call}
use artifact_controller.Web.Texts.{set_header}
use artifact_controller.Store.Http.State.{HttpState, outside, early_expiry}
use artifact_controller.Store.Http.Secrets.{key_or, require_key}

module _ (k : Toolkit) (w : Web) where
  -- tokenCache.get: the clock is read only where there is a token.
  unfoldable pub get_token : Io HttpState (Option String)
  get_token s = if s.token == "" then (ok none, s) else (
    ok (if ltb_ℤ (w.now s.log) s.expires_at then some s.token else none),
    record s { log = Event.clock ∷ s.log },
  )

  -- tokenCache.put
  unfoldable pub put_token : String → ℤ → HttpState → HttpState
  put_token token ttl s = record s {
    log = Event.clock ∷ s.log;
    token = token;
    expires_at = w.now s.log +ℤ sub64 ttl early_expiry;
  }

  -- The form of the token request; a scope is set only where scopes are asked for.
  unfoldable pub token_form : HttpAuthSpec → String → String → List (String × String)
  token_form auth client_id client_secret =
      ("grant_type", "client_credentials")
      ∷ ("client_id", client_id)
      ∷ ("client_secret", client_secret)
      ∷ elim auth.scopes [ [] ↦ [] | s ∷ l ↦ ("scope", join " " (s ∷ l)) ∷ [] ]

  unfoldable pub token_request : HttpAuthSpec → String → String → WebRequest
  token_request auth client_id client_secret =
      set_header w "Content-Type" "application/x-www-form-urlencoded" (record {
        method = "POST";
        url = auth.token_url;
        headers = [];
        body = some (w.encode_form (token_form auth client_id client_secret));
      })

  -- The lifetime that the cache is given: twice earlyExpiry for a missing or short one.
  unfoldable pub token_ttl : ℤ → ℤ
  token_ttl expires_in =
      if leb_ℤ (mul64 second expires_in) early_expiry
      then mul64 2 early_expiry
      else mul64 second expires_in

  -- The end of clientCredentialsToken: the token is cached and returned.
  unfoldable pub keep_token : TokenAnswer → Io HttpState String
  keep_token out s =
      if out.access_token == ""
      then (err (errorf "token response carried no access_token"), s)
      else (ok out.access_token, put_token out.access_token (token_ttl out.expires_in) s)

  -- The token of a body that was read. The body of a refusal is not echoed.
  unfoldable pub accept_body : ℕ → String → Io HttpState String
  accept_body code body =
      if not (equal code 200)
      then raise (errorf (k.sprintf "token endpoint returned %d" (Arg.num (pos code) ∷ [])))
      else (lift (
            map_error (λ e. k.sprintf "decode token response: %w" (Arg.text e ∷ []))
              (w.unmarshal_token body))
          >>= keep_token)

  -- What is made of a token endpoint's reply.
  unfoldable pub accept_token : Reply → Io HttpState String
  accept_token reply =
      lift (
        map_error (λ e. k.sprintf "read token response: %w" (Arg.text e ∷ []))
          (reply.read max_body))
      >>= accept_body reply.code

  -- The request of a fresh token.
  unfoldable pub exchange : HttpAuthSpec → Map String → Io HttpState String
  exchange auth entries =
      if auth.token_url == ""
      then raise (errorf "auth type clientCredentials requires store.http.auth.tokenURL")
      else do
        client_id ← lift (require_key k entries (key_or auth.client_id_key "clientId"))
        client_secret ← lift (require_key k entries (key_or auth.client_secret_key "clientSecret"))
        lift (
            map_error (λ e. k.sprintf "build token request: %w" (Arg.text e ∷ []))
              (w.check_request "POST" auth.token_url))
        let request = token_request auth client_id client_secret
        reply ← outside (
            call (Event.sent request) (λ log.
              map_error (λ e. k.sprintf "token endpoint: %w" (Arg.text e ∷ []))
                (w.send log request)))
        accept_token reply

  abbrev cached_or_fresh : HttpAuthSpec → Map String → Option String → Io HttpState String
  cached_or_fresh auth entries none = exchange auth entries
  cached_or_fresh auth entries (some token) = pure token

  -- clientCredentialsToken
  unfoldable pub client_credentials_token : HttpAuthSpec → Map String → Io HttpState String
  client_credentials_token auth entries = get_token >>= cached_or_fresh auth entries
