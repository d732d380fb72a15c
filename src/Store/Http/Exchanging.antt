-- ===== src/Store/Http/Exchanging.antt =====
-- The exchange behind a request of the http driver: what was sent, and what was answered.
use artifact_controller.Prelude.{String, ◌≡◌, arith, inl, inr, []}
use artifact_controller.Prelude.Result.{ok}
use artifact_controller.Prelude.Result.Bind.{Result-cases}
use artifact_controller.Api.ArtifactClass.{HttpRequestSpec}
use artifact_controller.Toolkit.{Toolkit}
use artifact_controller.Web.{Web, WebRequest, Reply, Response, max_body}
use artifact_controller.Store.Metadata.{publish}
use artifact_controller.Store.Http.{do_request, send_request, read_response, plain_request}
use artifact_controller.Store.Http.State.{HttpDriver, HttpState}
use artifact_controller.Store.Http.Auth.{authorize}
use artifact_controller.Store.Http.Expressions.{render_url, parse_json}

module _ (k : Toolkit) (w : Web) where
  -- The response is the store's reply to the authorized request for the rendered URL: its status,
  -- its headers in lower case, and its body, which was read to the limit.
  pub record Exchanged (d : HttpDriver) (req : HttpRequestSpec) (key : String) (s : HttpState)
      (r : Response) : Type 0 where
    pub url : String
    pub rendered : render_url k w req.url key ≡ ok url
    pub request : WebRequest
    pub authorized : (authorize k w d (plain_request k w req url) s).0 ≡ ok request
    pub reply : Reply
    pub replied : w.send (authorize k w d (plain_request k w req url) s).1.log request ≡ ok reply
    pub body : String
    pub read : reply.read max_body ≡ ok body
    pub answer : r ≡ record {
      code = reply.code;
      headers = publish k.to_lower reply.headers [];
      body = body;
      json = parse_json k w body;
    }

  pub do_request-Exchanged :
      (d : HttpDriver) (req : HttpRequestSpec) (key : String) (s : HttpState) (r : Response)
      → (do_request k w d req key s).0 ≡ ok r
      → Exchanged d req key s r
  unfolding do_request send_request read_response
  do_request-Exchanged d req key s r e = elim (Result-cases (render_url k w req.url key)) [
    | inr (x, q) ↦ ground (arith, q, e)
    | inl (url, q) ↦
        (let a = authorize k w d (plain_request k w req url) s in
          elim (Result-cases a.0) [
            | inr (x, p) ↦ ground (arith, q, p, e)
            | inl (request, p) ↦ elim (Result-cases (w.send a.1.log request)) [
              | inr (x, t) ↦ ground (arith, q, p, t, e)
              | inl (reply, t) ↦ elim (Result-cases (reply.read max_body)) [
                | inr (x, b) ↦ ground (arith, q, p, t, b, e)
                | inl (body, b) ↦ record {
                  url = url;
                  rendered = q;
                  request = request;
                  authorized = p;
                  reply = reply;
                  replied = t;
                  body = body;
                  read = b;
                  answer = ground (arith, q, p, t, b, e);
                }
              ]
            ]
          ])
  ]
