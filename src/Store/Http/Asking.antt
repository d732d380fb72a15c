-- ===== src/Store/Http/Asking.antt =====
-- The calls that a request of the http driver makes: those of its authorization, and its own.
use artifact_controller.Prelude.{
  ℕ, String, ◌≡◌, refl, arith, Option-cases, Option, none, some, inl, inr, ◌⊎◌, List, [], All,
  subst, sym, ◌∷◌,
}
use artifact_controller.Prelude.Maps.{Map}
use artifact_controller.Prelude.Result.Bind.{Result-cases}
use artifact_controller.Api.ArtifactClass.{HttpAuthSpec, HttpAuthType, HttpRequestSpec}
use artifact_controller.Toolkit.{Toolkit}
use artifact_controller.Web.{Web, WebRequest, Reply, Event, Log}
use artifact_controller.Web.Formats.{TokenAnswer}
use artifact_controller.Web.Io.{◌>>=◌}
use artifact_controller.Web.Signing.{sign_checked}
use artifact_controller.Store.Http.{do_request, send_request, plain_request}
use artifact_controller.Store.Http.State.{HttpDriver, HttpState}
use artifact_controller.Store.Names.{join}
use artifact_controller.Web.Texts.{set_header}
use artifact_controller.Store.Http.Secrets.{key_or, require_key}
use artifact_controller.Store.Http.Sources.{Entry, FromSecret, require_key-Entry}
use artifact_controller.Store.Http.Tokens.{
  client_credentials_token, get_token, put_token, exchange, accept_token, accept_body, keep_token,
  token_request, token_form,
}
use artifact_controller.Store.Http.Auth.{
  authorize, authorize_by, with_secret, apply_scheme, sign_sig_v4,
}
use artifact_controller.Store.Http.Expressions.{render_url}
use artifact_controller.Prelude.Result.{ok}

module _ (k : Toolkit) (w : Web) (allowed : Option HttpAuthSpec) (Own : WebRequest → Type 0) where
  -- The parameter for the scopes that the class asks for, if any.
  abbrev scope_of : HttpAuthSpec → List (String × String)
  scope_of auth = elim auth.scopes [ [] ↦ [] | s ∷ l ↦ ("scope", join " " (s ∷ l)) ∷ [] ]

  -- A request of a token by the client-credentials scheme, with the client's id and secret from the
  -- secret that the class names.
  pub record IsTokenRequest (auth : HttpAuthSpec) (r : WebRequest) : Type 0 where
    pub scheme : auth.type ≡ HttpAuthType.client_credentials
    pub entries : Map String
    pub source : FromSecret w auth entries
    pub client_id : String
    pub id_entry : Entry entries (key_or auth.client_id_key "clientId") client_id
    pub client_secret : String
    pub secret_entry : Entry entries (key_or auth.client_secret_key "clientSecret") client_secret
    pub method : r.method ≡ "POST"
    pub target : r.url ≡ auth.token_url
    pub form :
        r.body
        ≡ some (
            w.encode_form (
              ("grant_type", "client_credentials")
              ∷ ("client_id", client_id)
              ∷ ("client_secret", client_secret)
              ∷ scope_of auth))
    pub built : r ≡ token_request k w auth client_id client_secret

  abbrev MayAsk : Option HttpAuthSpec → WebRequest → Type 0
  MayAsk none r = ⊥
  MayAsk (some auth) r = IsTokenRequest auth r

  abbrev pub Asked : Event → Type 0
  Asked (Event.sent r) = MayAsk allowed r ⊎ Own r
  Asked _ = Unit

  keep_token-Asked :
      (out : TokenAnswer) (s : HttpState) → All Asked s.log → All Asked (keep_token k w out s).1.log
  unfolding keep_token put_token
  keep_token-Asked out s h = ground (arith, h)

  accept_body-Asked :
      (code : ℕ) (body : String) (s : HttpState)
      → All Asked s.log
      → All Asked (accept_body k w code body s).1.log
  unfolding accept_body
  accept_body-Asked code body s h = grind (arith, h, keep_token-Asked)

  accept_token-Asked :
      (reply : Reply) (s : HttpState) → All Asked s.log → All Asked (accept_token k w reply s).1.log
  unfolding accept_token
  accept_token-Asked reply s h = grind (arith, h, accept_body-Asked)

  token_request-MayAsk :
      (auth : HttpAuthSpec) (entries : Map String) (client_id client_secret : String)
      → FromSecret w auth entries
      → require_key k entries (key_or auth.client_id_key "clientId") ≡ ok client_id
      → require_key k entries (key_or auth.client_secret_key "clientSecret") ≡ ok client_secret
      → allowed ≡ some auth
      → auth.type ≡ HttpAuthType.client_credentials
      → MayAsk allowed (token_request k w auth client_id client_secret)
  unfolding token_request token_form set_header
  token_request-MayAsk auth entries i c x p q e t =
      subst (λ o. MayAsk o (token_request k w auth i c)) (sym e)
        (record {
          scheme = t;
          entries = entries;
          source = x;
          client_id = i;
          id_entry = require_key-Entry k entries _ i p;
          client_secret = c;
          secret_entry = require_key-Entry k entries _ c q;
          method = refl;
          target = refl;
          form = refl;
          built = refl;
        })

  exchange-Asked :
      (auth : HttpAuthSpec) (entries : Map String) (s : HttpState)
      → allowed ≡ some auth
      → auth.type ≡ HttpAuthType.client_credentials
      → FromSecret w auth entries
      → All Asked s.log
      → All Asked (exchange k w auth entries s).1.log
  unfolding exchange
  exchange-Asked auth entries s e t x h = grind (
    arith,
    h,
    accept_token-Asked,
    λ (i c : String). λ (p : require_key k entries (key_or auth.client_id_key "clientId") ≡ ok i).
        λ (q : require_key k entries (key_or auth.client_secret_key "clientSecret") ≡ ok c).
          token_request-MayAsk auth entries i c x p q e t,
  )

  client_credentials_token-Asked :
      (auth : HttpAuthSpec) (entries : Map String) (s : HttpState)
      → allowed ≡ some auth
      → auth.type ≡ HttpAuthType.client_credentials
      → FromSecret w auth entries
      → All Asked s.log
      → All Asked (client_credentials_token k w auth entries s).1.log
  unfolding client_credentials_token get_token
  client_credentials_token-Asked auth entries s e t x h =
      grind (arith, h, λ (s' : HttpState). exchange-Asked auth entries s' e t x)

  apply_scheme-Asked :
      (type : HttpAuthType) (auth : HttpAuthSpec) (entries : Map String) (r : WebRequest)
      (s : HttpState)
      → allowed ≡ some auth
      → auth.type ≡ type
      → FromSecret w auth entries
      → All Asked s.log
      → All Asked (apply_scheme k w type auth entries r s).1.log
  unfolding apply_scheme
  apply_scheme-Asked HttpAuthType.client_credentials auth entries r s e q x h =
      grind (arith, h, client_credentials_token-Asked auth entries s e q x)
  apply_scheme-Asked type auth entries r s e q x h = ground (arith, h)

  with_secret-Asked :
      (d : HttpDriver) (auth : HttpAuthSpec) (r : WebRequest) (s : HttpState)
      → allowed ≡ some auth
      → All Asked s.log
      → All Asked (with_secret k w d auth r s).1.log
  unfolding with_secret
  with_secret-Asked d auth r s e h = elim (Option-cases auth.secret_ref) [
    | inl n ↦ ground (arith, n, h)
    | inr (name, q) ↦ elim (Result-cases (w.secret s.log name)) [
      | inr (x, p) ↦ ground (arith, q, p, h)
      | inl (entries, p) ↦
          (let x : FromSecret w auth entries = record {
            name = name;
            log = s.log;
            named = q;
            resolved = p;
          } in
            ground (
              arith,
              q,
              p,
              h,
              apply_scheme-Asked auth.type auth entries r
                  (record s { log = Event.secret name ∷ s.log }) e refl x,
            ))
    ]
  ]

  sign_checked-Asked :
      (r : WebRequest) (region service : String) (log : Log)
      → All Asked log
      → All Asked (sign_checked k w r region service log).1
  unfolding sign_checked
  sign_checked-Asked r region service log h = ground (arith, h)

  sign_sig_v4-Asked :
      (auth : HttpAuthSpec) (r : WebRequest) (log : Log)
      → All Asked log
      → All Asked (sign_sig_v4 k w auth r log).1
  unfolding sign_sig_v4
  sign_sig_v4-Asked auth r log h = grind (arith, h, sign_checked-Asked)

  authorize_by-Asked :
      (type : HttpAuthType) (d : HttpDriver) (auth : HttpAuthSpec) (r : WebRequest) (s : HttpState)
      → allowed ≡ some auth
      → All Asked s.log
      → All Asked (authorize_by k w type d auth r s).1.log
  unfolding authorize_by
  authorize_by-Asked HttpAuthType.unset d auth r s e h = h
  authorize_by-Asked HttpAuthType.no_auth d auth r s e h = h
  authorize_by-Asked HttpAuthType.sig_v4 d auth r s e h = sign_sig_v4-Asked auth r s.log h
  authorize_by-Asked type d auth r s e h = with_secret-Asked d auth r s e h

  authorize-Asked :
      (d : HttpDriver) (r : WebRequest) (s : HttpState)
      → allowed ≡ d.cfg.auth
      → All Asked s.log
      → All Asked (authorize k w d r s).1.log
  unfolding authorize
  authorize-Asked d r s e h = elim (Option-cases d.cfg.auth) [
    | inl n ↦ ground (arith, n, h)
    | inr (auth, q) ↦ grind (arith, q, h, authorize_by-Asked auth.type d auth r s, e)
  ]

  send_request-Asked :
      (r : WebRequest) (s : HttpState)
      → Own r
      → All Asked s.log
      → All Asked (send_request k w r s).1.log
  unfolding send_request
  send_request-Asked r s c h = ground (arith, c, h)

  send_authorized-Asked :
      (d : HttpDriver) (r : WebRequest) (s : HttpState)
      → allowed ≡ d.cfg.auth
      → ((r' : WebRequest) → (authorize k w d r s).0 ≡ ok r' → Own r')
      → All Asked s.log
      → All Asked ((authorize k w d r >>= send_request k w) s).1.log
  send_authorized-Asked d r s e own h = elim (Result-cases (authorize k w d r s).0) [
    | inr (x, q) ↦ grind (arith, q, authorize-Asked d r s e h)
    | inl (r', q) ↦
        let c : Own r' = own r' q in
        grind
          (arith, q, c, authorize-Asked d r s e h, send_request-Asked r' (authorize k w d r s).1)
  ]

  -- The calls of a request: what an authorization asks for, and the request if it is an own one
  -- once it is authorized.
  pub do_request-Asked :
      (d : HttpDriver) (req : HttpRequestSpec) (key : String) (s : HttpState)
      → allowed ≡ d.cfg.auth
      → ((url : String) (r : WebRequest) (s' : HttpState)
          → render_url k w req.url key ≡ ok url
          → (authorize k w d (plain_request k w req url) s').0 ≡ ok r
          → Own r)
      → All Asked s.log
      → All Asked (do_request k w d req key s).1.log
  unfolding do_request
  do_request-Asked d req key s e own h = elim (Result-cases (render_url k w req.url key)) [
    | inr (x, q) ↦ ground (arith, q, h)
    | inl (url, q) ↦ grind (
      arith,
      q,
      h,
      send_authorized-Asked d (plain_request k w req url) s e (λ r' a. own url r' s q a) h,
    )
  ]
