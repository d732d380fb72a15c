-- ===== src/Store/Fake.antt =====
-- internal/store/fake/fake.go: the in-memory driver. Each method holds the mutex from its first
-- to its last line, so that it is one step.
pub mod Refinement
use artifact_controller.Prelude.{String, true, Option, none, some, List, [], ◌∷◌, ◌*◌}
use artifact_controller.Prelude.Maps.{Map, lookup, insert, erase}
use artifact_controller.Prelude.Result.{Error, ok}
use artifact_controller.Calls.{Trace}
use artifact_controller.Store.{Observation, no_observation, Driver, Factory, Registry, register}

-- object
pub record StoredObject : Type 0 where
  pub digest : String
  pub metadata : Map String

-- Store
pub record FakeStore : Type 0 where
  pub objects : Map StoredObject
  pub delete_err : Option Error

-- The loop that fills a new map with the entries of another.
unfoldable pub copy_map : Map String → Map String
copy_map [] = []
copy_map (e ∷ rest) = insert e.0 e.1 (copy_map rest)

-- New
unfoldable pub new_store : FakeStore
new_store = record { objects = []; delete_err = none }

-- Observe
unfoldable pub observe : FakeStore → String → Observation
observe s key = elim (lookup key s.objects) [
  | none ↦ no_observation
  | some o ↦ record { exists = true; digest = o.digest; metadata = copy_map o.metadata }
]

-- Delete
unfoldable pub delete : String → FakeStore → FakeStore × Option Error
delete key s = elim s.delete_err [
  | some e ↦ (s, some e)
  | none ↦ (record s { objects = erase key s.objects }, none)
]

-- FailDeletes
unfoldable pub fail_deletes : Option Error → FakeStore → FakeStore
fail_deletes e s = record s { delete_err = e }

-- Put
unfoldable pub put : String → String → Map String → FakeStore → FakeStore
put key digest metadata s = record s {
  objects = insert key (record { digest = digest; metadata = copy_map metadata }) s.objects;
}

-- Clear
unfoldable pub clear : FakeStore → FakeStore
clear s = record s { objects = [] }

-- The factory of Register: every class has the one store, whose state after the calls of a trace is
-- `at`.
unfoldable pub fake_factory : (Trace → FakeStore) → Factory
fake_factory at tr class = ok (record {
  observe = λ tr' key. ok (observe (at tr') key);
  delete = λ tr' key. (delete key (at tr')).1;
})

-- Register
unfoldable pub register_fake : (Trace → FakeStore) → Registry → Registry
register_fake at = register "fake" (fake_factory at)
