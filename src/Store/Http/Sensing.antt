-- ===== src/Store/Http/Sensing.antt =====
-- What a driver that only observes sends.
use Prim.Native.String.{◌++◌ as append}
use artifact_controller.Prelude.{String, ◌≡◌, refl, arith, Option-cases, ◌∷◌, inl, inr, All, subst}
use artifact_controller.Prelude.Int.{ℤ}
use artifact_controller.Prelude.Maps.{Map}
use artifact_controller.Prelude.Result.{Result, ok, err}
use artifact_controller.Prelude.Result.Bind.{Result-cases}
use artifact_controller.Api.ArtifactClass.{HttpAuthSpec, HttpAuthType}
use artifact_controller.Toolkit.{Toolkit}
use artifact_controller.Web.{Web, WebRequest, Event, Log}
use artifact_controller.Web.Io.{lift, ◌>>=◌}
use artifact_controller.Web.Signing.{sign_checked, payload_hash}
use artifact_controller.Web.Texts.{set_header}
use artifact_controller.Store.Http.{observe, plain_request}
use artifact_controller.Store.Http.State.{HttpDriver, HttpState, outside}
use artifact_controller.Store.Http.Expressions.{render_url}
use artifact_controller.Store.Http.Secrets.{key_or, require_key}
use artifact_controller.Store.Http.Tokens.{client_credentials_token}
use artifact_controller.Store.Http.Auth.{
  authorize, authorize_by, with_secret, apply_scheme, sign_sig_v4,
}
use artifact_controller.Store.Http.Asking.{Asked, do_request-Asked}

module _ (k : Toolkit) (w : Web) where
  -- What an authorization makes of a request: nothing, one header, or what the AWS signer makes.
  pub data IsAuthorized (r : WebRequest) : WebRequest → Type 0 where
    as_is : IsAuthorized r r
    with_header : (name value : String) → IsAuthorized r (set_header w name value r)
    signed :
        {r' : WebRequest} (credentials : w.Credentials) (service region : String) (time : ℤ)
        → w.sign_http credentials r (payload_hash k w r) service region time ≡ ok r'
        → IsAuthorized r r'

  ok-with_header :
      (name value : String) (r r' : WebRequest)
      → ◌≡◌ {A = Result WebRequest} (ok (set_header w name value r)) (ok r')
      → IsAuthorized r r'
  ok-with_header name value r r' e =
      subst (IsAuthorized r) (ground (arith, e)) (with_header name value)

  header_set :
      (name : String) (f : String → String) (value : Result String) (r r' : WebRequest)
      (s : HttpState)
      → ((lift value >>= λ v. λ s'. (ok (set_header w name (f v) r), s')) s).0 ≡ ok r'
      → IsAuthorized r r'
  header_set name f (ok v) r r' s e = ok-with_header name (f v) r r' e
  header_set name f (err x) r r' s e = cc

  basic_set :
      (user pass : Result String) (r r' : WebRequest) (s : HttpState)
      → ((lift user >>= λ u. lift pass >>= λ p. λ s'. (
        ok (set_header w "Authorization" (append "Basic " (w.base64 (append u (append ":" p)))) r),
        s',
      ))
          s).0
        ≡ ok r'
      → IsAuthorized r r'
  basic_set (err x) pass r r' s e = cc
  basic_set (ok u) pass r r' s e =
      header_set "Authorization" (λ p. append "Basic " (w.base64 (append u (append ":" p)))) pass r
        r' s e

  apply_scheme-IsAuthorized :
      (type : HttpAuthType) (auth : HttpAuthSpec) (entries : Map String) (r r' : WebRequest)
      (s : HttpState)
      → (apply_scheme k w type auth entries r s).0 ≡ ok r'
      → IsAuthorized r r'
  unfolding apply_scheme
  apply_scheme-IsAuthorized HttpAuthType.unset auth entries r r' s e = cc
  apply_scheme-IsAuthorized HttpAuthType.no_auth auth entries r r' s e = cc
  apply_scheme-IsAuthorized HttpAuthType.sig_v4 auth entries r r' s e = cc
  apply_scheme-IsAuthorized (HttpAuthType.other n) auth entries r r' s e = cc
  apply_scheme-IsAuthorized HttpAuthType.bearer auth entries r r' s e =
      header_set "Authorization" (append "Bearer ")
        (require_key k entries (key_or auth.token_key "token")) r r' s e
  apply_scheme-IsAuthorized HttpAuthType.header auth entries r r' s e =
      header_set (key_or auth.header_name "Authorization") (λ v. v)
        (require_key k entries (key_or auth.token_key "token")) r r' s e
  apply_scheme-IsAuthorized HttpAuthType.client_credentials auth entries r r' s e =
      header_set "Authorization" (append "Bearer ") (client_credentials_token k w auth entries s).0
        r r' (client_credentials_token k w auth entries s).1 e
  apply_scheme-IsAuthorized HttpAuthType.basic auth entries r r' s e =
      basic_set (require_key k entries (key_or auth.username_key "username"))
        (require_key k entries (key_or auth.password_key "password")) r r' s e

  sign_checked-IsAuthorized :
      (region service : String) (r r' : WebRequest) (log : Log)
      → (sign_checked k w r region service log).0 ≡ ok r'
      → IsAuthorized r r'
  unfolding sign_checked
  sign_checked-IsAuthorized region service r r' log e =
      elim (Result-cases (w.load_aws_config log region)) [
        | inr (x, q) ↦ ground (arith, q, e)
        | inl (cfg, q) ↦ elim (Result-cases (w.retrieve (Event.aws_config region ∷ log) cfg)) [
          | inr (x, p) ↦ ground (arith, q, p, e)
          | inl (creds, p) ↦
              signed creds service region
                (w.now (Event.aws_credentials ∷ Event.aws_config region ∷ log))
                (ground (arith, q, p, e))
        ]
      ]

  sign_sig_v4-IsAuthorized :
      (auth : HttpAuthSpec) (r r' : WebRequest) (s : HttpState)
      → (outside (sign_sig_v4 k w auth r) s).0 ≡ ok r'
      → IsAuthorized r r'
  unfolding sign_sig_v4
  sign_sig_v4-IsAuthorized auth r r' s e =
      grind (arith, sign_checked-IsAuthorized auth.region auth.service r r' s.log)

  with_secret-IsAuthorized :
      (d : HttpDriver) (auth : HttpAuthSpec) (r r' : WebRequest) (s : HttpState)
      → (with_secret k w d auth r s).0 ≡ ok r'
      → IsAuthorized r r'
  unfolding with_secret
  with_secret-IsAuthorized d auth r r' s e = elim (Option-cases auth.secret_ref) [
    | inl n ↦ ground (arith, n, e)
    | inr (name, q) ↦ elim (Result-cases (w.secret s.log name)) [
      | inr (x, p) ↦ ground (arith, q, p, e)
      | inl (entries, p) ↦
          apply_scheme-IsAuthorized auth.type auth entries r r'
            (record s { log = Event.secret name ∷ s.log }) (ground (arith, q, p, e))
    ]
  ]

  authorize_by-IsAuthorized :
      (type : HttpAuthType) (d : HttpDriver) (auth : HttpAuthSpec) (r r' : WebRequest)
      (s : HttpState)
      → (authorize_by k w type d auth r s).0 ≡ ok r'
      → IsAuthorized r r'
  unfolding authorize_by
  authorize_by-IsAuthorized HttpAuthType.unset d auth r r' s e =
      subst (IsAuthorized r) (ground (arith, e)) as_is
  authorize_by-IsAuthorized HttpAuthType.no_auth d auth r r' s e =
      subst (IsAuthorized r) (ground (arith, e)) as_is
  authorize_by-IsAuthorized HttpAuthType.sig_v4 d auth r r' s e =
      sign_sig_v4-IsAuthorized auth r r' s e
  authorize_by-IsAuthorized type d auth r r' s e = with_secret-IsAuthorized d auth r r' s e

  authorize-IsAuthorized :
      (d : HttpDriver) (r r' : WebRequest) (s : HttpState)
      → (authorize k w d r s).0 ≡ ok r'
      → IsAuthorized r r'
  unfolding authorize
  authorize-IsAuthorized d r r' s e = elim (Option-cases d.cfg.auth) [
    | inl n ↦ subst (IsAuthorized r) (ground (arith, n, e)) as_is
    | inr (auth, q) ↦ authorize_by-IsAuthorized auth.type d auth r r' s (ground (arith, q, e))
  ]

  -- The observation of a key: the request that the class configures, for the rendered URL.
  pub record IsObserving (d : HttpDriver) (r : WebRequest) : Type 0 where
    pub key : String
    pub url : String
    pub rendered : render_url k w d.cfg.observe.url key ≡ ok url
    pub authorized : IsAuthorized (plain_request k w d.cfg.observe url) r

  -- A request of a token, or an observation.
  abbrev pub Senses : HttpDriver → Event → Type 0
  Senses d = Asked k w d.cfg.auth (IsObserving d)

  pub observe-Senses :
      (d : HttpDriver) (key : String) (s : HttpState)
      → All (Senses d) s.log
      → All (Senses d) (observe k w d key s).1.log
  unfolding observe
  observe-Senses d key s h = grind (
    arith,
    do_request-Asked k w d.cfg.auth (IsObserving d) d d.cfg.observe key s refl
        (λ url r s' q a. record {
          key = key;
          url = url;
          rendered = q;
          authorized = authorize-IsAuthorized d (plain_request k w d.cfg.observe url) r s' a;
        })
        h,
  )
