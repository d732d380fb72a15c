-- ===== src/Store/Http/Tokens/Cache.antt =====
-- The token cache: a token is used while it is valid, and nothing of a refusal is told.
use artifact_controller.Prelude.{ℕ, String, true, ◌≡◌, ◌≢◌, arith, subst, eq_iff, some, ◌∷◌, ◌∙◌}
use artifact_controller.Prelude.Int.{ℤ, pos, negsuc, ltb_ℤ, ◌<ℤ◌, mul64, sub64, wrap64, ◌-ℤ◌}
use artifact_controller.Prelude.Maps.{Map}
use artifact_controller.Prelude.Result.{Result, ok, err}
use artifact_controller.Api.ArtifactClass.{HttpAuthSpec}
use artifact_controller.Toolkit.{Toolkit}
use artifact_controller.Web.{Web, Reply, Event, max_body}
use artifact_controller.Web.Formats.{TokenAnswer}
use artifact_controller.Store.Http.State.{HttpState, early_expiry}
use artifact_controller.Store.Http.Tokens.{
  get_token, put_token, token_ttl, keep_token, accept_body, accept_token, exchange,
  client_credentials_token,
}

module _ (k : Toolkit) (w : Web) where
  -- A token that was just returned is the cached one.
  abbrev pub Holds : Result String × HttpState → Type 0
  Holds (ok token, s) = (s.token ≡ token) × (token ≢ "")
  Holds (err e, s) = Unit

  keep_token-Holds : (out : TokenAnswer) (s : HttpState) → Holds (keep_token k w out s)
  unfolding keep_token put_token
  keep_token-Holds out s = ground (arith, eq_iff out.access_token "")

  accept_body-Holds :
      (code : ℕ) (body : String) (s : HttpState) → Holds (accept_body k w code body s)
  unfolding accept_body
  accept_body-Holds code body s = grind (arith, keep_token-Holds)

  accept_token-Holds : (reply : Reply) (s : HttpState) → Holds (accept_token k w reply s)
  unfolding accept_token
  accept_token-Holds reply s = grind (arith, accept_body-Holds)

  exchange-Holds :
      (auth : HttpAuthSpec) (entries : Map String) (s : HttpState)
      → Holds (exchange k w auth entries s)
  unfolding exchange
  exchange-Holds auth entries s = grind (arith, accept_token-Holds)

  pub client_credentials_token-Holds :
      (auth : HttpAuthSpec) (entries : Map String) (s : HttpState)
      → Holds (client_credentials_token k w auth entries s)
  unfolding client_credentials_token get_token
  client_credentials_token-Holds auth entries s =
      grind (arith, exchange-Holds auth entries, eq_iff s.token "")

  get_token-hit :
      (s : HttpState)
      → s.token ≢ ""
      → ltb_ℤ (w.now s.log) s.expires_at ≡ true
      → get_token k w s ≡ (ok (some s.token), record s { log = Event.clock ∷ s.log })
  unfolding get_token
  get_token-hit s n t = ground (arith, n, t, eq_iff s.token "")

  cached :
      (auth : HttpAuthSpec) (entries : Map String) (s : HttpState) (token : String)
      → s.token ≡ token
      → token ≢ ""
      → ltb_ℤ (w.now s.log) s.expires_at ≡ true
      → client_credentials_token k w auth entries s
        ≡ (ok token, record s { log = Event.clock ∷ s.log })
  unfolding client_credentials_token
  cached auth entries s token e n t = grind (arith, e, n, t, get_token-hit s)

  -- A token that a call returned is returned again by any call with the same driver, whatever its
  -- reads and requests in between, as long as the cache is as the first call left it and the clock
  -- is before the token's expiry. Nothing is requested for it: only the clock is read.
  pub client_credentials_token-reuse :
      (auth auth' : HttpAuthSpec) (entries entries' : Map String) (s s' : HttpState)
      (token : String)
      → (client_credentials_token k w auth entries s).0 ≡ ok token
      → s'.token ≡ (client_credentials_token k w auth entries s).1.token
      → s'.expires_at ≡ (client_credentials_token k w auth entries s).1.expires_at
      → ltb_ℤ (w.now s'.log) s'.expires_at ≡ true
      → client_credentials_token k w auth' entries' s'
        ≡ (ok token, record s' { log = Event.clock ∷ s'.log })
  client_credentials_token-reuse auth auth' entries entries' s s' token e same kept t =
      let s1 = (client_credentials_token k w auth entries s).1 in
      let (held, n) =
        subst (λ r. Holds (r, s1)) e (client_credentials_token-Holds auth entries s) in
      cached auth' entries' s' token (same ∙ held) n t

  -- The cache keeps every token it is given for some time, however short its lifetime is said to be.
  pub token_ttl-Positive : (n : ℤ) → pos 0 <ℤ sub64 (token_ttl k w n) early_expiry
  unfolding token_ttl sub64 mul64 wrap64 ◌-ℤ◌
  token_ttl-Positive (pos n) = ground arith
  token_ttl-Positive (negsuc n) = ground arith

  -- The answer to a refusal depends on its status alone: nothing of the body is told, which may
  -- hold the client's id or secret.
  pub accept_token-opaque :
      (reply reply' : Reply) (body body' : String) (s : HttpState)
      → reply.code ≡ reply'.code
      → reply.code ≢ 200
      → reply.read max_body ≡ ok body
      → reply'.read max_body ≡ ok body'
      → accept_token k w reply s ≡ accept_token k w reply' s
  unfolding accept_token accept_body
  accept_token-opaque reply reply' body body' s c n e e' = ground (arith, c, n, e, e')
