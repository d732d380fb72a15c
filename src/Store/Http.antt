-- ===== src/Store/Http.antt =====
-- internal/store/httpstore/http.go: the driver that a class configures.
pub mod State
pub mod Secrets
pub mod Tokens
pub mod Auth
pub mod Expressions
pub mod Exchanging
pub mod Observing
pub mod Sources
pub mod Credentials
pub mod Asking
pub mod Requests
pub mod Sensing
pub mod Rebuilding
use artifact_controller.Prelude.{
  ℕ, String, Bool, true, false, not, ◌==◌, ◌&&◌, ◌||◌, ltb, leb, equal, Option, none, some, List,
  [], ◌∷◌, ◌*◌, if◌then◌else◌,
}
use artifact_controller.Prelude.Int.{ℤ, pos, ltb_ℤ, second}
use artifact_controller.Prelude.Maps.{Map}
use artifact_controller.Prelude.Result.{Error, Result, ok, err, errorf, map_error}
use artifact_controller.Api.ArtifactClass.{
  ArtifactClass, HttpStoreSpec, HttpRequestSpec, default_stamp_metadata_key,
}
use artifact_controller.Toolkit.{Toolkit, Arg}
use artifact_controller.Calls.{Trace}
use artifact_controller.Store.{Observation, no_observation, Factory, Registry, register}
use artifact_controller.Store.Adapter.{adapt}
use artifact_controller.Web.{Web, Log, WebRequest, Reply, Response, Event, max_body}
use artifact_controller.Web.Io.{Io, ◌>>=◌, ◌>>◌, pure, raise, lift, call}
use artifact_controller.Web.Texts.{set_header}
use artifact_controller.Store.Metadata.{publish}
use artifact_controller.Store.Http.State.{HttpDriver, HttpState, outside}
use artifact_controller.Store.Http.Auth.{authorize}
use artifact_controller.Store.Http.Expressions.{render_url, parse_json, eval_bool, eval_string}

-- 200 ≤ code < 300
abbrev pub is_success : ℕ → Bool
is_success code = leb 200 code && ltb code 300

-- defaultExists
abbrev pub default_exists : Response → Bool
default_exists r = is_success r.code

-- stampKey
unfoldable pub stamp_key : HttpStoreSpec → String
stamp_key cfg = if cfg.stamp_key == "" then default_stamp_metadata_key else cfg.stamp_key

module _ (k : Toolkit) (w : Web) where
  -- The rest of newDriver, with store.http at hand.
  abbrev build_driver : Bool → ArtifactClass → HttpStoreSpec → Result HttpDriver
  build_driver has_secrets class cfg =
      if cfg.observe.url == ""
      then err (
          errorf
            (k.sprintf "class %s: store.http.observe.url is required" (Arg.text class.name ∷ [])))
      else elim w.new_env [
        | err e ↦ err (record e {
          text =
              k.sprintf "class %s: build CEL env: %w" (Arg.text class.name ∷ Arg.text e.text ∷ []);
        })
        | ok u ↦ ok (record {
          cfg = cfg;
          timeout = elim cfg.timeout [
            | none ↦ pos (30 * second)
            | some d ↦ if ltb_ℤ (pos 0) d then d else pos (30 * second)
          ];
          has_secrets = has_secrets;
        })
      ]

  -- newDriver
  unfoldable pub new_driver : Bool → ArtifactClass → Result HttpDriver
  new_driver has_secrets class = elim class.store.http [
    | none ↦ err (
        errorf (
          k.sprintf "class %s: store.driver is http but store.http is not set"
            (Arg.text class.name ∷ [])))
    | some cfg ↦ build_driver has_secrets class cfg
  ]

  -- for k, v := range req.Headers { httpReq.Header.Set(k, v) }
  unfoldable pub set_headers : Map String → WebRequest → WebRequest
  set_headers [] request = request
  set_headers (e ∷ rest) request = set_headers rest (set_header w e.0 e.1 request)

  abbrev pub method_of : HttpRequestSpec → String
  method_of req = if req.method == "" then "HEAD" else req.method

  -- The request before its authorization.
  unfoldable pub plain_request : HttpRequestSpec → String → WebRequest
  plain_request req url =
      set_headers req.headers
        (record { method = method_of req; url = url; headers = []; body = none })

  -- The response that expressions see, from the reply to a request.
  unfoldable pub read_response : Reply → Result Response
  read_response reply = elim (reply.read max_body) [
    | err e ↦ err (record e { text = k.sprintf "read response: %w" (Arg.text e.text ∷ []) })
    | ok body ↦ ok (record {
      code = reply.code;
      headers = publish k.to_lower reply.headers [];
      body = body;
      json = parse_json k w body;
    })
  ]

  -- client.Do
  unfoldable pub send_request : WebRequest → Io HttpState Reply
  send_request request = outside (
      call (Event.sent request) (λ log.
        map_error
          (λ e.
            k.sprintf "%s %s: %w"
              (Arg.text request.method ∷ Arg.text request.url ∷ Arg.text e ∷ []))
          (w.send log request)))

  -- do
  unfoldable pub do_request : HttpDriver → HttpRequestSpec → String → Io HttpState Response
  do_request d req key = do
    url ← lift (render_url k w req.url key)
    lift (
        map_error (λ e. k.sprintf "build request: %w" (Arg.text e ∷ []))
          (w.check_request (method_of req) url))
    request ← authorize k w d (plain_request req url)
    reply ← send_request request
    lift (read_response reply)

  -- The object that a response shows.
  unfoldable pub shown : HttpStoreSpec → Response → Observation
  shown cfg r = record {
    exists = true;
    digest = if cfg.digest == "" then "" else eval_string k w cfg.digest r;
    metadata =
        if cfg.stamp == ""
        then []
        else (k.to_lower (stamp_key cfg), eval_string k w cfg.stamp r) ∷ [];
  }

  -- The part of Observe behind the request.
  unfoldable pub observed : HttpStoreSpec → Response → Result Observation
  observed cfg r = elim (eval_bool k w cfg.exists r default_exists) [
    | err e ↦ err (record e { text = k.sprintf "evaluate exists: %w" (Arg.text e.text ∷ []) })
    | ok exists ↦ ok (if exists then shown cfg r else no_observation)
  ]

  -- Observe
  unfoldable pub observe : HttpDriver → String → Io HttpState Observation
  observe d key = do_request d d.cfg.observe key >>= λ r. lift (observed d.cfg r)

  -- What Delete makes of a response: 404 means that the object is gone already.
  unfoldable pub deleted : Response → Result (Unit {0})
  deleted r =
      if equal r.code 404 || is_success r.code
      then ok tt
      else err (errorf (k.sprintf "delete returned %d" (Arg.num (pos r.code) ∷ [])))

  -- Delete
  unfoldable pub delete : HttpDriver → String → Io HttpState (Unit {0})
  delete d key = elim d.cfg.delete [
    | none ↦
        raise (errorf "store.http.delete is not configured; this class cannot delete artifacts")
    | some req ↦ do_request d req key >>= λ r. lift (deleted r)
  ]

  -- A driver that was built just now: no call of its own, and an empty token cache.
  abbrev pub fresh : Log → HttpState
  fresh log = record { log = log; token = ""; expires_at = pos 0 }

  -- The factory of Register: every call builds a driver of its own. `before` gives the calls of the
  -- world outside that were made before it.
  unfoldable pub http_factory : (Trace → Log) → Bool → Factory
  http_factory before has_secrets tr class = elim (new_driver has_secrets class) [
    | err e ↦ err e
    | ok d ↦ ok (adapt (λ tr'. fresh (before tr')) (observe d) (delete d))
  ]

  -- Register
  unfoldable pub register_http : (Trace → Log) → Bool → Registry → Registry
  register_http before has_secrets = register "http" (http_factory before has_secrets)
