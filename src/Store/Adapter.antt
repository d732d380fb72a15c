-- ===== src/Store/Adapter.antt =====
-- The drivers of this repository as the controller sees them: their own state, replayed from the
-- calls of a reconciliation.
use artifact_controller.Prelude.{String, Option, none, some, [], ◌∷◌}
use artifact_controller.Prelude.Result.{Error, Result, ok, err}
use artifact_controller.Calls.{Call, Trace}
use artifact_controller.Store.{Observation, Driver}
use artifact_controller.Web.Io.{Io}

abbrev error_of : {A : Type 0} → Result A → Option Error
error_of (ok a) = none
error_of (err e) = some e

module _ {S : Type 0} (fresh : Trace → S) (observe : String → Io S Observation)
    (delete : String → Io S (Unit {0})) where
  -- The state of the driver that was built last: `fresh` gives the state in which a driver is built
  -- after the given calls.
  unfoldable pub replay : Trace → S
  replay [] = fresh []
  replay (Call.build_driver name ∷ tr) = fresh tr
  replay (Call.observe key ∷ tr) = (observe key (replay tr)).1
  replay (Call.delete_object key ∷ tr) = (delete key (replay tr)).1
  replay (other ∷ tr) = replay tr

  -- store.Driver
  unfoldable pub adapt : Driver
  adapt = record {
    observe = λ tr key. (observe key (replay tr)).0;
    delete = λ tr key. error_of (delete key (replay tr)).0;
  }
