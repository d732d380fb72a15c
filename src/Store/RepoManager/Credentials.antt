-- ===== src/Store/RepoManager/Credentials.antt =====
-- The credential of the drivers of Artifactory and Nexus.
use Prim.Native.String.{◌++◌}
use artifact_controller.Prelude.{
  String, Bool, ◌≡◌, ◌≢◌, ◌==◌, arith, eq_iff, some, inl, inr, Bool-cases,
}
use artifact_controller.Prelude.Maps.{lookup, lookup-insert}
use artifact_controller.Prelude.Result.{ok}
use artifact_controller.Prelude.Result.Bind.{Result-cases}
use artifact_controller.Api.ArtifactClass.{ArtifactClass, RepoManagerStoreSpec}
use artifact_controller.Toolkit.{Toolkit}
use artifact_controller.Web.{Web, WebRequest, Log}
use artifact_controller.Web.Texts.{set_header}
use artifact_controller.Store.RepoManager.Driver.{
  RepoDriver, Flavour, auth_from, pick_auth, read_auth, build_driver, new_driver, repo_request,
}

module _ (k : Toolkit) (w : Web) where
  abbrev Has : String → String → WebRequest → Type 0
  Has name value r = lookup (w.canonical_header name) r.headers ≡ some value

  -- A request with one of the credentials that a secret can hold.
  pub data Carries (r : WebRequest) : Type 0 where
    api_key : (value : String) → value ≢ "" → Has "X-JFrog-Art-Api" value r → Carries r
    token : (value : String) → value ≢ "" → Has "Authorization" ("Bearer " ++ value) r → Carries r
    user :
        (name password : String)
        → name ≢ ""
        → password ≢ ""
        → Has "Authorization" ("Basic " ++ w.base64 (name ++ (":" ++ password))) r
        → Carries r

  Has-set : (name value : String) (r : WebRequest) → Has name value (set_header w name value r)
  unfolding set_header
  Has-set name value r = ground (
    arith,
    lookup-insert (w.canonical_header name) (w.canonical_header name) value r.headers,
    eq_iff (w.canonical_header name) (w.canonical_header name),
  )

  pick_auth-Carries :
      (key value name password : String) (auth : WebRequest → WebRequest) (r : WebRequest)
      → pick_auth k w key value name password ≡ ok auth
      → Carries (auth r)
  unfolding pick_auth
  pick_auth-Carries key value name password auth r e = elim (Bool-cases (key == "")) [
    | inr a ↦
        let q : auth ≡ set_header w "X-JFrog-Art-Api" key = ground (arith, a, e) in
        rw q
          (api_key key (λ h. ground (arith, a, h, eq_iff key "")) (Has-set "X-JFrog-Art-Api" key r))
    | inl a ↦ elim (Bool-cases (value == "")) [
      | inr b ↦
          let q : auth ≡ set_header w "Authorization" ("Bearer " ++ value) =
            ground (arith, a, b, e) in
          rw q (
            token value (λ h. ground (arith, b, h, eq_iff value ""))
              (Has-set "Authorization" ("Bearer " ++ value) r))
      | inl b ↦ elim (Bool-cases (name == "")) [
        | inl c ↦ ground (arith, a, b, c, e)
        | inr c ↦ elim (Bool-cases (password == "")) [
          | inl d ↦ ground (arith, a, b, c, d, e)
          | inr d ↦
              let basic = "Basic " ++ w.base64 (name ++ (":" ++ password)) in
              let q : auth ≡ set_header w "Authorization" basic = ground (arith, a, b, c, d, e) in
              rw q (
                user name password (λ h. ground (arith, c, h, eq_iff name ""))
                  (λ h. ground (arith, d, h, eq_iff password "")) (Has-set "Authorization" basic r))
        ]
      ]
    ]
  ]

  read_auth-Carries :
      (has_secrets : Bool) (class : ArtifactClass) (name : String) (log : Log)
      (auth : WebRequest → WebRequest) (r : WebRequest)
      → (read_auth k w has_secrets class (some name) log).0 ≡ ok auth
      → Carries (auth r)
  unfolding read_auth auth_from
  read_auth-Carries has_secrets class name log auth r e = elim (Result-cases (w.secret log name)) [
    | inr (x, p) ↦ ground (arith, p, e)
    | inl (entries, p) ↦ elim (Result-cases (auth_from k w entries)) [
      | inr (x, q) ↦ ground (arith, p, q, e)
      | inl (made, q) ↦
          let same : auth ≡ made = ground (arith, p, q, e) in
          rw same (pick_auth-Carries _ _ _ _ made r q)
    ]
  ]

  -- Every request of a driver whose class names a secret carries a credential that is not empty: an
  -- API key, a token, or a user and a password. No driver is built for a secret without one.
  pub repo_request-Carries :
      (has_secrets : Bool) (class : ArtifactClass) (f : Flavour) (cfg : RepoManagerStoreSpec)
      (name : String) (log : Log) (d : RepoDriver) (method url : String)
      → class.store.repo_manager ≡ some cfg
      → cfg.secret_ref ≡ some name
      → (new_driver k w has_secrets class f log).0 ≡ ok d
      → Carries (repo_request k w d method url)
  unfolding new_driver build_driver repo_request
  repo_request-Carries has_secrets class f cfg name log d method url c n e =
      elim (Result-cases (read_auth k w has_secrets class (some name) log).0) [
        | inr (x, p) ↦ ground (arith, c, n, p, e)
        | inl (auth, p) ↦
            let same : d.auth ≡ auth = ground (arith, c, n, p, e) in
            rw same (read_auth-Carries has_secrets class name log auth _ p)
      ]
