-- ===== src/Tests/Store.antt =====
-- The theorems on the store at concrete inputs.
use artifact_controller.Prelude.{List, [], ◌∷◌}
use artifact_controller.Store.Fake.{observe}
use artifact_controller.Store.Fake.Refinement.{
  Operation, run, content, Shows, put_object, delete_object, observe-Shows,
}

abbrev history : List Operation
history = put_object "b" "d2" [] ∷ delete_object "a" ∷ put_object "a" "d1" [] ∷ []

observe-Shows_example : Shows (content history "a") (observe (run history) "a")
observe-Shows_example = observe-Shows history "a"
