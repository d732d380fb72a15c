-- ===== src/Store/Ami/Queries.antt =====
-- The exchange behind a query of EC2: what was sent, and what was answered.
use artifact_controller.Prelude.{
  String, true, ◌≡◌, refl, arith, subst, some, Option, List, ◌∷◌, inl, inr, Bool-cases,
}
use artifact_controller.Prelude.Maps.{Map, insert, lookup}
use artifact_controller.Prelude.Result.{ok}
use artifact_controller.Prelude.Result.Bind.{Result-cases}
use artifact_controller.Toolkit.{Toolkit}
use artifact_controller.Store.Http.{is_success}
use artifact_controller.Web.{Web, Log, WebRequest, Reply, Event}
use artifact_controller.Web.Formats.{Ec2Image}
use artifact_controller.Web.Signing.{sign}
use artifact_controller.Web.Texts.{set_header}
use artifact_controller.Store.Ami.{
  AmiDriver, ec2_api_version, ec2_max_body, query_request, query, check_code, describe,
  describe_params, first_image,
}

module _ (k : Toolkit) (w : Web) where
  -- The parameters were posted to the endpoint as a form, in a signed request, the answer has a
  -- status from 200 to 299 and its body was read. The request is the only one sent.
  pub record Queried (d : AmiDriver) (params : Map String) (before : Log) (raw : String)
      (after : Log) : Type 0 where
    pub form : WebRequest
    pub method : form.method ≡ "POST"
    pub url : form.url ≡ d.endpoint
    pub body : form.body ≡ some (w.encode_form (insert "Version" ec2_api_version params))
    pub request : WebRequest
    pub signed : (sign k w form d.region "ec2" before).0 ≡ ok request
    pub reply : Reply
    pub replied : w.send (sign k w form d.region "ec2" before).1 request ≡ ok reply
    pub read : reply.read ec2_max_body ≡ ok raw
    pub success : is_success reply.code ≡ true
    pub calls : after ≡ Event.sent request ∷ (sign k w form d.region "ec2" before).1

  pub query-Queried :
      (d : AmiDriver) (params : Map String) (log : Log) (raw : String)
      → (query k w d params log).0 ≡ ok raw
      → Queried d params log raw (query k w d params log).1
  unfolding query check_code query_request set_header
  query-Queried d params log raw e =
      let form = query_request k w d params in
      let signing = sign k w form d.region "ec2" log in
      elim (Result-cases (w.check_request "POST" d.endpoint)) [
        | inr (x, u) ↦ ground (arith, u, e)
        | inl (v, u) ↦ elim (Result-cases signing.0) [
          | inr (x, q) ↦ ground (arith, u, q, e)
          | inl (request, q) ↦ elim (Result-cases (w.send signing.1 request)) [
            | inr (x, t) ↦ ground (arith, u, q, t, e)
            | inl (reply, t) ↦ elim (Result-cases (reply.read ec2_max_body)) [
              | inr (x, b) ↦ ground (arith, u, q, t, b, e)
              | inl (body, b) ↦ elim (Bool-cases (is_success reply.code)) [
                | inr n ↦ ground (arith, u, q, t, b, n, e)
                | inl c ↦ record {
                  form = form;
                  method = refl;
                  url = refl;
                  body = refl;
                  request = request;
                  signed = q;
                  reply = reply;
                  replied = t;
                  read = ground (arith, u, q, t, b, c, e);
                  success = c;
                  calls = ground (arith, u, q, t, b, c);
                }
              ]
            ]
          ]
        ]
      ]

  -- EC2 was asked for the owner's images with the name, and `image` is the first of its answer.
  pub record Searched (d : AmiDriver) (name : String) (before : Log) (image : Option Ec2Image)
      (after : Log) : Type 0 where
    pub params : Map String
    pub action : lookup "Action" params ≡ some "DescribeImages"
    pub owner : lookup "Owner.1" params ≡ some d.owner
    pub filter : lookup "Filter.1.Name" params ≡ some "name"
    pub value : lookup "Filter.1.Value.1" params ≡ some name
    pub raw : String
    pub answer : Queried d params before raw after
    pub images : List Ec2Image
    pub decoded : w.unmarshal_images raw ≡ ok images
    pub first : image ≡ first_image images

  pub describe-Searched :
      (d : AmiDriver) (name : String) (log : Log) (image : Option Ec2Image)
      → (describe k w d name log).0 ≡ ok image
      → Searched d name log image (describe k w d name log).1
  unfolding describe describe_params lookup
  describe-Searched d name log image e =
      let params = describe_params k w d name in
      elim (Result-cases (query k w d params log).0) [
        | inr (x, p) ↦ ground (arith, p, e)
        | inl (raw, p) ↦ elim (Result-cases (w.unmarshal_images raw)) [
          | inr (x, q) ↦ ground (arith, p, q, e)
          | inl (images, q) ↦
              (let same : (query k w d params log).1 ≡ (describe k w d name log).1 =
                  ground (arith, p, q) in
                record {
                  params = params;
                  action = refl;
                  owner = refl;
                  filter = refl;
                  value = refl;
                  raw = raw;
                  answer = subst (Queried d params log raw) same (query-Queried d params log raw p);
                  images = images;
                  decoded = q;
                  first = ground (arith, p, q, e);
                })
        ]
      ]
