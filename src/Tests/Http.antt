-- ===== src/Tests/Http.antt =====
-- The theorems on the http driver at concrete inputs.
use artifact_controller.Prelude.{◌≡◌, refl, [], ◌∷◌, arith, true, String}
use artifact_controller.Prelude.Int.{sub64, mul64, ◌+ℤ◌}
use artifact_controller.Prelude.Maps.{Map, lookup}
use artifact_controller.Prelude.Result.{ok}
use artifact_controller.Web.{Event, Response}
use artifact_controller.Store.{Observation}
use artifact_controller.Store.Http.{
  observe, delete, fresh, shown, stamp_key, do_request, observed, deleted, send_request,
  read_response,
}
use artifact_controller.Store.Http.Auth.{authorize, authorize_by, with_secret, apply_scheme}
use artifact_controller.Store.Http.Expressions.{render_url, eval_bool, eval_string, eval}
use artifact_controller.Store.Http.State.{HttpState}
use artifact_controller.Store.Http.Secrets.{require_key}
use artifact_controller.Api.ArtifactClass.{stamp_metadata_key}
use artifact_controller.Controller.Existing.{stamp_of}
use artifact_controller.Tests.Fixtures.{class}
use artifact_controller.Store.Http.Tokens.{
  get_token, accept_body, keep_token, put_token, client_credentials_token, accept_token, exchange,
  token_ttl,
}
use artifact_controller.Store.Http.Tokens.Cache.{
  client_credentials_token-reuse, accept_token-opaque,
}
use artifact_controller.Store.Http.Observing.{
  Reported, Confirmed, observe-Reported, stamp_of-shown, delete-Confirmed,
}
use artifact_controller.Store.Http.Exchanging.{Exchanged}
use artifact_controller.Tests.Tools.{toolkit}
use artifact_controller.Tests.WebTools.{
  web, http_driver, http_spec, client_auth, reply_of, response,
}

abbrev start : HttpState
start = fresh toolkit web []

abbrev entries : Map String
entries = ("clientId", "a") ∷ ("clientSecret", "b") ∷ []

abbrev after : HttpState
after = (client_credentials_token toolkit web client_auth entries start).1

-- The state in which a later call finds the driver: a secret was read in between.
abbrev later : HttpState
later = record after { log = Event.secret "token" ∷ after.log }

client_credentials_token-reuse_example :
    client_credentials_token toolkit web client_auth [] later
    ≡ (ok "t", record later { log = Event.clock ∷ later.log })
unfolding client_credentials_token get_token exchange accept_token accept_body keep_token put_token
    token_ttl require_key lookup ◌+ℤ◌ sub64 mul64
client_credentials_token-reuse_example =
    client_credentials_token-reuse toolkit web client_auth client_auth entries [] start later "t"
      refl refl refl refl

accept_token-opaque_example :
    accept_token toolkit web (reply_of 401 "client a") start
    ≡ accept_token toolkit web (reply_of 401 "secret b") start
accept_token-opaque_example =
    accept_token-opaque toolkit web (reply_of 401 "client a") (reply_of 401 "secret b") "client a"
      "secret b" start refl (λ e. omega (arith, e)) refl refl

stamp_of-shown_example : stamp_of toolkit class (shown toolkit web http_spec response) ≡ ""
unfolding stamp_key stamp_metadata_key
stamp_of-shown_example = stamp_of-shown toolkit web class http_spec response

abbrev found : Observation
found = record { exists = true; digest = ""; metadata = ("x-own-stamp", "sha256:h") ∷ [] }

observe-Reported_example :
    (r : Response) × Exchanged toolkit web http_driver http_driver.cfg.observe "a" start r
    × Reported toolkit web http_driver.cfg r found
unfolding observe observed shown stamp_key eval_bool eval_string eval do_request render_url
    authorize authorize_by with_secret apply_scheme client_credentials_token get_token exchange
    require_key lookup accept_token accept_body keep_token send_request read_response
observe-Reported_example = observe-Reported toolkit web http_driver "a" start found refl

delete-Confirmed_example : Confirmed toolkit web http_driver "a" start
unfolding delete deleted do_request render_url authorize authorize_by with_secret apply_scheme
    client_credentials_token get_token exchange require_key lookup accept_token accept_body
    keep_token send_request read_response
delete-Confirmed_example = delete-Confirmed toolkit web http_driver "a" start refl
