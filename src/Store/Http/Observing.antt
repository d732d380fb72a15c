-- ===== src/Store/Http/Observing.antt =====
-- What the http driver reports: objects, stamps and deletions.
use artifact_controller.Prelude.{
  String, true, false, ◌≡◌, ◌==◌, ◌||◌, equal, arith, Option-cases, some, inl, inr, if◌then◌else◌,
}
use artifact_controller.Prelude.Maps.{lookup, get_text}
use artifact_controller.Prelude.Result.{ok}
use artifact_controller.Prelude.Result.Bind.{Result-cases}
use artifact_controller.Api.ArtifactClass.{
  ArtifactClass, HttpStoreSpec, HttpRequestSpec, stamp_metadata_key,
}
use artifact_controller.Toolkit.{Toolkit}
use artifact_controller.Store.{Observation, no_observation}
use artifact_controller.Web.{Web, Response}
use artifact_controller.Store.Http.{
  stamp_key, do_request, shown, observed, observe, deleted, delete, is_success, default_exists,
}
use artifact_controller.Store.Http.Exchanging.{Exchanged, do_request-Exchanged}
use artifact_controller.Store.Http.State.{HttpDriver, HttpState}
use artifact_controller.Store.Http.Expressions.{eval_bool, eval_string}
use artifact_controller.Controller.Existing.{stamp_of}

module _ (k : Toolkit) (w : Web) where
  -- The observation comes from a response: the class's expression decides whether the object
  -- exists, an empty expression being the status codes from 200 to 299.
  pub record Reported (cfg : HttpStoreSpec) (r : Response) (obs : Observation) : Type 0 where
    pub decided : eval_bool k w cfg.exists r default_exists ≡ ok obs.exists
    pub content : obs ≡ (if obs.exists then shown k w cfg r else no_observation)

  observed-Reported :
      (cfg : HttpStoreSpec) (r : Response) (obs : Observation)
      → observed k w cfg r ≡ ok obs
      → Reported cfg r obs
  unfolding observed shown
  observed-Reported cfg r obs e = elim (Result-cases (eval_bool k w cfg.exists r default_exists)) [
    | inl (true, d) ↦ ground (arith, d, e)
    | inl (false, d) ↦ ground (arith, d, e)
    | inr (x, d) ↦ ground (arith, d, e)
  ]

  -- An observation by the http driver that succeeds reports what the store answered to the class's
  -- observe request: the URL was rendered, the request authorized and sent, the store replied, and the body was read.
  -- Whether the object exists is decided on the status, headers and body of that reply. So nothing is
  -- reported, and no absence either, where one of these steps failed.
  pub observe-Reported :
      (d : HttpDriver) (key : String) (s : HttpState) (obs : Observation)
      → (observe k w d key s).0 ≡ ok obs
      → (r : Response) × Exchanged k w d d.cfg.observe key s r × Reported d.cfg r obs
  unfolding observe
  observe-Reported d key s obs e = elim (Result-cases (do_request k w d d.cfg.observe key s).0) [
    | inl (r, q) ↦ (
      r,
      do_request-Exchanged k w d d.cfg.observe key s r q,
      observed-Reported d.cfg r obs (ground (arith, q, e)),
    )
    | inr (x, q) ↦ ground (arith, q, e)
  ]

  -- The stamp that the controller reads from an object which the driver shows is the value of the
  -- class's stamp expression where the driver's stamp key is the class's metadata key in lower case,
  -- and empty otherwise; it is empty too where the class has no such expression.
  pub stamp_of-shown :
      (class : ArtifactClass) (cfg : HttpStoreSpec) (r : Response)
      → stamp_of k class (shown k w cfg r) ≡ (
          if cfg.stamp == ""
          then ""
          else if k.to_lower (stamp_key cfg) == stamp_metadata_key k.to_lower class
          then eval_string k w cfg.stamp r
          else "")
  unfolding stamp_of shown get_text lookup
  stamp_of-shown class cfg r = ground arith

  -- A deletion that succeeds is configured and was answered with 404 or with 200 to 299.
  pub record Confirmed (d : HttpDriver) (key : String) (s : HttpState) : Type 0 where
    pub request : HttpRequestSpec
    pub configured : d.cfg.delete ≡ some request
    pub response : Response
    pub answered : (do_request k w d request key s).0 ≡ ok response
    pub accepted : (equal response.code 404 || is_success response.code) ≡ true

  delete_with-Confirmed :
      (d : HttpDriver) (req : HttpRequestSpec) (key : String) (s : HttpState)
      → d.cfg.delete ≡ some req
      → (delete k w d key s).0 ≡ ok tt
      → Confirmed d key s
  unfolding delete deleted
  delete_with-Confirmed d req key s c e = elim (Result-cases (do_request k w d req key s).0) [
    | inl (r, q) ↦ record {
      request = req;
      configured = c;
      response = r;
      answered = q;
      accepted = ground (arith, c, q, e);
    }
    | inr (x, q) ↦ ground (arith, c, q, e)
  ]

  -- A deletion succeeds only with a configured delete request to which the store answered that the
  -- object is gone: with 404 or with 200 to 299.
  pub delete-Confirmed :
      (d : HttpDriver) (key : String) (s : HttpState)
      → (delete k w d key s).0 ≡ ok tt
      → Confirmed d key s
  unfolding delete
  delete-Confirmed d key s e = elim (Option-cases d.cfg.delete) [
    | inl n ↦ ground (arith, n, e)
    | inr (req, c) ↦ delete_with-Confirmed d req key s c e
  ]
