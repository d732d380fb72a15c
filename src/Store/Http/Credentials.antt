-- ===== src/Store/Http/Credentials.antt =====
-- Every request that the http driver sends carries the credential of the class's scheme, from the
-- secret that the class names.
use Prim.Native.String.{◌++◌ as append}
use artifact_controller.Prelude.{
  String, ◌≡◌, ◌≢◌, refl, arith, eq_iff, Option-cases, Option, none, some, ◌∷◌, inl, inr, subst,
  sym,
}
use artifact_controller.Prelude.Int.{ℤ}
use artifact_controller.Prelude.Maps.{Map, lookup, lookup-insert}
use artifact_controller.Prelude.Result.{Result, ok, err}
use artifact_controller.Prelude.Result.Bind.{Result-cases}
use artifact_controller.Api.ArtifactClass.{HttpAuthSpec, HttpAuthType}
use artifact_controller.Toolkit.{Toolkit}
use artifact_controller.Web.{Web, WebRequest, Event, Log}
use artifact_controller.Web.Io.{lift, ◌>>=◌}
use artifact_controller.Web.Signing.{sign_checked, payload_hash}
use artifact_controller.Web.Texts.{set_header}
use artifact_controller.Store.Http.State.{HttpDriver, HttpState, outside}
use artifact_controller.Store.Http.Secrets.{key_or, require_key}
use artifact_controller.Store.Http.Sources.{Entry, FromSecret, require_key-Entry}
use artifact_controller.Store.Http.Tokens.{client_credentials_token}
use artifact_controller.Store.Http.Tokens.Cache.{Holds, client_credentials_token-Holds}
use artifact_controller.Store.Http.Auth.{
  authorize, authorize_by, with_secret, apply_scheme, sign_sig_v4,
}

module _ (k : Toolkit) (w : Web) where
  abbrev pub HasHeader : String → String → WebRequest → Type 0
  HasHeader name value r = lookup (w.canonical_header name) r.headers ≡ some value

  -- The result of the AWS signer, for the region and the service of the class.
  pub record Signed (auth : HttpAuthSpec) (r : WebRequest) : Type 0 where
    pub before : WebRequest
    pub credentials : w.Credentials
    pub time : ℤ
    pub by_signer :
        w.sign_http credentials before (payload_hash k w before) auth.service auth.region time
        ≡ ok r

  -- A bearer token from the secret.
  pub record CarriesToken (auth : HttpAuthSpec) (r : WebRequest) : Type 0 where
    pub entries : Map String
    pub source : FromSecret w auth entries
    pub token : String
    pub entry : Entry entries (key_or auth.token_key "token") token
    pub carried : HasHeader "Authorization" (append "Bearer " token) r

  -- The user's name and password from the secret.
  pub record CarriesLogin (auth : HttpAuthSpec) (r : WebRequest) : Type 0 where
    pub entries : Map String
    pub source : FromSecret w auth entries
    pub user : String
    pub user_entry : Entry entries (key_or auth.username_key "username") user
    pub pass : String
    pub pass_entry : Entry entries (key_or auth.password_key "password") pass
    pub carried :
        HasHeader "Authorization" (append "Basic " (w.base64 (append user (append ":" pass)))) r

  -- The value from the secret, in the header that the class names.
  pub record CarriesValue (auth : HttpAuthSpec) (r : WebRequest) : Type 0 where
    pub entries : Map String
    pub source : FromSecret w auth entries
    pub value : String
    pub entry : Entry entries (key_or auth.token_key "token") value
    pub carried : HasHeader (key_or auth.header_name "Authorization") value r

  -- The token, which is not empty, that the exchange or its cache returned for the secret.
  pub record CarriesGrant (auth : HttpAuthSpec) (r : WebRequest) : Type 0 where
    pub entries : Map String
    pub source : FromSecret w auth entries
    pub state : HttpState
    pub token : String
    pub granted : (client_credentials_token k w auth entries state).0 ≡ ok token
    pub present : token ≢ ""
    pub carried : HasHeader "Authorization" (append "Bearer " token) r

  -- What each scheme puts on a request. Nothing is sent for an unknown one.
  abbrev pub Carries : HttpAuthType → HttpAuthSpec → WebRequest → Type 0
  Carries HttpAuthType.unset auth r = Unit
  Carries HttpAuthType.no_auth auth r = Unit
  Carries HttpAuthType.bearer auth r = CarriesToken auth r
  Carries HttpAuthType.client_credentials auth r = CarriesGrant auth r
  Carries HttpAuthType.basic auth r = CarriesLogin auth r
  Carries HttpAuthType.header auth r = CarriesValue auth r
  Carries HttpAuthType.sig_v4 auth r = Signed auth r
  Carries (HttpAuthType.other name) auth r = ⊥

  abbrev pub Credentialed : Option HttpAuthSpec → WebRequest → Type 0
  Credentialed none r = Unit
  Credentialed (some auth) r = Carries auth.type auth r

  -- The request that a step made by setting a header has that header.
  HasHeader-set :
      (name value : String) (r r' : WebRequest)
      → ◌≡◌ {A = Result WebRequest} (ok (set_header w name value r)) (ok r')
      → HasHeader name value r'
  unfolding set_header
  HasHeader-set name value r r' e = ground (
    arith,
    e,
    lookup-insert (w.canonical_header name) (w.canonical_header name) value r.headers,
    eq_iff (w.canonical_header name) (w.canonical_header name),
  )

  -- The header that a step sets with the value of a secret's key.
  set_from :
      (name : String) (f : String → String) (value : Result String) (r r' : WebRequest)
      (s : HttpState)
      → ((lift value >>= λ v. λ s'. (ok (set_header w name (f v) r), s')) s).0 ≡ ok r'
      → (v : String) × (value ≡ ok v) × HasHeader name (f v) r'
  set_from name f (ok v) r r' s e = (v, refl, HasHeader-set name (f v) r r' e)
  set_from name f (err x) r r' s e = cc

  basic_from :
      (user pass : Result String) (r r' : WebRequest) (s : HttpState)
      → ((lift user >>= λ u. lift pass >>= λ p. λ s'. (
        ok (set_header w "Authorization" (append "Basic " (w.base64 (append u (append ":" p)))) r),
        s',
      ))
          s).0
        ≡ ok r'
      → (u : String) × (p : String) × (user ≡ ok u)
        × (pass ≡ ok p)
        × HasHeader "Authorization" (append "Basic " (w.base64 (append u (append ":" p)))) r'
  basic_from (ok u) (ok p) r r' s e = (
    u,
    p,
    refl,
    refl,
    HasHeader-set "Authorization" (append "Basic " (w.base64 (append u (append ":" p)))) r r' e,
  )
  basic_from (ok u) (err x) r r' s e = cc
  basic_from (err x) pass r r' s e = cc

  apply_scheme-Carries :
      (type : HttpAuthType) (auth : HttpAuthSpec) (entries : Map String) (r r' : WebRequest)
      (s : HttpState)
      → FromSecret w auth entries
      → (apply_scheme k w type auth entries r s).0 ≡ ok r'
      → Carries type auth r'
  unfolding apply_scheme
  apply_scheme-Carries HttpAuthType.unset auth entries r r' s x e = tt
  apply_scheme-Carries HttpAuthType.no_auth auth entries r r' s x e = tt
  apply_scheme-Carries HttpAuthType.sig_v4 auth entries r r' s x e = cc
  apply_scheme-Carries (HttpAuthType.other n) auth entries r r' s x e = cc
  apply_scheme-Carries HttpAuthType.bearer auth entries r r' s x e =
      let key = key_or auth.token_key "token" in
      let (v, q, h) =
        set_from "Authorization" (append "Bearer ") (require_key k entries key) r r' s e in
      record {
        entries = entries;
        source = x;
        token = v;
        entry = require_key-Entry k entries key v q;
        carried = h;
      }
  apply_scheme-Carries HttpAuthType.header auth entries r r' s x e =
      let key = key_or auth.token_key "token" in
      let (v, q, h) =
        set_from (key_or auth.header_name "Authorization") (λ v. v) (require_key k entries key) r r'
          s e in
      record {
        entries = entries;
        source = x;
        value = v;
        entry = require_key-Entry k entries key v q;
        carried = h;
      }
  apply_scheme-Carries HttpAuthType.client_credentials auth entries r r' s x e =
      let t = client_credentials_token k w auth entries s in
      let (v, q, h) = set_from "Authorization" (append "Bearer ") t.0 r r' t.1 e in
      record {
        entries = entries;
        source = x;
        state = s;
        token = v;
        granted = q;
        present =
            (subst (λ y. Holds k w (y, t.1)) q
              (client_credentials_token-Holds k w auth entries s)).1;
        carried = h;
      }
  apply_scheme-Carries HttpAuthType.basic auth entries r r' s x e =
      let name = key_or auth.username_key "username" in
      let word = key_or auth.password_key "password" in
      let (u, p, q, t, h) =
        basic_from (require_key k entries name) (require_key k entries word) r r' s e in
      record {
        entries = entries;
        source = x;
        user = u;
        user_entry = require_key-Entry k entries name u q;
        pass = p;
        pass_entry = require_key-Entry k entries word p t;
        carried = h;
      }

  sign_checked-Signed :
      (auth : HttpAuthSpec) (r r' : WebRequest) (log : Log)
      → (sign_checked k w r auth.region auth.service log).0 ≡ ok r'
      → Signed auth r'
  unfolding sign_checked
  sign_checked-Signed auth r r' log e = elim (Result-cases (w.load_aws_config log auth.region)) [
    | inr (x, q) ↦ ground (arith, q, e)
    | inl (cfg, q) ↦ elim (Result-cases (w.retrieve (Event.aws_config auth.region ∷ log) cfg)) [
      | inr (x, p) ↦ ground (arith, q, p, e)
      | inl (creds, p) ↦ record {
        before = r;
        credentials = creds;
        time = w.now (Event.aws_credentials ∷ Event.aws_config auth.region ∷ log);
        by_signer = ground (arith, q, p, e);
      }
    ]
  ]

  sign_sig_v4-Signed :
      (auth : HttpAuthSpec) (r r' : WebRequest) (s : HttpState)
      → (outside (sign_sig_v4 k w auth r) s).0 ≡ ok r'
      → Signed auth r'
  unfolding sign_sig_v4
  sign_sig_v4-Signed auth r r' s e = grind (arith, sign_checked-Signed auth r r' s.log)

  with_secret-Carries :
      (d : HttpDriver) (auth : HttpAuthSpec) (r r' : WebRequest) (s : HttpState)
      → (with_secret k w d auth r s).0 ≡ ok r'
      → Carries auth.type auth r'
  unfolding with_secret
  with_secret-Carries d auth r r' s e = elim (Option-cases auth.secret_ref) [
    | inl n ↦ ground (arith, n, e)
    | inr (name, q) ↦ elim (Result-cases (w.secret s.log name)) [
      | inr (x, p) ↦ ground (arith, q, p, e)
      | inl (entries, p) ↦
          apply_scheme-Carries auth.type auth entries r r'
            (record s { log = Event.secret name ∷ s.log })
            (record { name = name; log = s.log; named = q; resolved = p }) (ground (arith, q, p, e))
    ]
  ]

  authorize_by-Carries :
      (type : HttpAuthType) (d : HttpDriver) (auth : HttpAuthSpec) (r r' : WebRequest)
      (s : HttpState)
      → auth.type ≡ type
      → (authorize_by k w type d auth r s).0 ≡ ok r'
      → Carries type auth r'
  unfolding authorize_by
  authorize_by-Carries HttpAuthType.unset d auth r r' s t e = tt
  authorize_by-Carries HttpAuthType.no_auth d auth r r' s t e = tt
  authorize_by-Carries HttpAuthType.sig_v4 d auth r r' s t e = sign_sig_v4-Signed auth r r' s e
  authorize_by-Carries type d auth r r' s t e =
      subst (λ u. Carries u auth r') t (with_secret-Carries d auth r r' s e)

  -- A request that was authorized carries the credential of the class's scheme.
  pub authorize-Credentialed :
      (d : HttpDriver) (r r' : WebRequest) (s : HttpState)
      → (authorize k w d r s).0 ≡ ok r'
      → Credentialed d.cfg.auth r'
  unfolding authorize
  authorize-Credentialed d r r' s e = elim (Option-cases d.cfg.auth) [
    | inl n ↦ subst (λ o. Credentialed o r') (sym n) tt
    | inr (auth, q) ↦
        subst (λ o. Credentialed o r') (sym q)
          (authorize_by-Carries auth.type d auth r r' s refl (ground (arith, q, e)))
  ]
