-- ===== src/Store/Http/Requests.antt =====
-- What the http driver sends: requests with the credential from the class's secret, and requests of a
-- token.
use artifact_controller.Prelude.{Option}
use artifact_controller.Api.ArtifactClass.{HttpAuthSpec}
use artifact_controller.Toolkit.{Toolkit}
use artifact_controller.Web.{Web, Event}
use artifact_controller.Store.Http.Asking.{Asked}
use artifact_controller.Store.Http.Credentials.{Credentialed}

module _ (k : Toolkit) (w : Web) where
  -- A request that carries the credential, or the request of a token.
  abbrev pub Allowed : Option HttpAuthSpec → Event → Type 0
  Allowed auth = Asked k w auth (Credentialed k w auth)
