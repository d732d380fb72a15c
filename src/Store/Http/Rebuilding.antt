-- ===== src/Store/Http/Rebuilding.antt =====
-- The state of the http driver in a reconciliation: the factory of http.go builds a new driver for
-- every reconciliation, so that the state begins there.
use artifact_controller.Toolkit.{Toolkit}
use artifact_controller.Calls.{Trace}
use artifact_controller.Web.{Web, Log}
use artifact_controller.Store.Adapter.{replay}
use artifact_controller.Store.Http.{observe, delete, fresh}
use artifact_controller.Store.Http.State.{HttpDriver, HttpState}

module _ (k : Toolkit) (w : Web) where
  -- The state of the driver after the calls of a reconciliation.
  abbrev pub state_after : (Trace → Log) → HttpDriver → Trace → HttpState
  state_after before d = replay (λ tr. fresh k w (before tr)) (observe k w d) (delete k w d)
