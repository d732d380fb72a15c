-- ===== src/Store/Fake/Refinement.antt =====
-- The in-memory store against what it stands for: the last thing that happened to each key.
use artifact_controller.Prelude.{
  String, true, false, ◌&&◌, ◌≡◌, ◌∙◌, ◌==◌, refl, arith, eq_iff, Option, none, some, is_none, List,
  [], ◌∷◌, if◌then◌else◌,
}
use artifact_controller.Prelude.Maps.{Map, lookup, lookup-insert, lookup-erase}
use artifact_controller.Prelude.Result.{Error}
use artifact_controller.Store.{Observation}
use artifact_controller.Store.Fake.{
  StoredObject, FakeStore, copy_map, new_store, observe, delete, fail_deletes, put, clear,
}

-- What happens to a store.
pub data Operation : Type 0 where
  put_object : String → String → Map String → Operation
  delete_object : String → Operation
  fail_with : Option Error → Operation
  clear_all : Operation

-- The store after a history, whose newest operation stands first.
abbrev pub run : List Operation → FakeStore
run [] = new_store
run (Operation.put_object key d md ∷ ops) = put key d md (run ops)
run (Operation.delete_object key ∷ ops) = (delete key (run ops)).0
run (Operation.fail_with e ∷ ops) = fail_deletes e (run ops)
run (Operation.clear_all ∷ ops) = clear (run ops)

-- Whether deletions are refused after a history.
abbrev pub denied : List Operation → Option Error
denied [] = none
denied (Operation.fail_with e ∷ ops) = e
denied (op ∷ ops) = denied ops

-- What a history leaves at a key: the last upload that no deletion and no clearing followed.
abbrev pub content : List Operation → String → Option StoredObject
content [] key = none
content (Operation.put_object j d md ∷ ops) key =
    if j == key then some (record { digest = d; metadata = md }) else content ops key
content (Operation.delete_object j ∷ ops) key =
    if is_none (denied ops) && (j == key) then none else content ops key
content (Operation.fail_with e ∷ ops) key = content ops key
content (Operation.clear_all ∷ ops) key = none

-- An observation shows an upload, or its absence.
pub record ShowsObject (o : StoredObject) (obs : Observation) : Type 0 where
  pub there : obs.exists ≡ true
  pub same_digest : obs.digest ≡ o.digest
  pub same_metadata : (name : String) → lookup name obs.metadata ≡ lookup name o.metadata

abbrev pub Shows : Option StoredObject → Observation → Type 0
Shows none obs = obs.exists ≡ false
Shows (some o) obs = ShowsObject o obs

lookup-copy_map : (name : String) (md : Map String) → lookup name (copy_map md) ≡ lookup name md
unfolding copy_map lookup
lookup-copy_map name [] = refl
lookup-copy_map name (e ∷ rest) =
    ground (
      arith,
      lookup-insert e.0 name e.1 (copy_map rest),
      lookup-copy_map name rest,
      eq_iff e.0 name,
    )

run-denied : (ops : List Operation) → (run ops).delete_err ≡ denied ops
unfolding new_store put delete fail_deletes clear
run-denied [] = refl
run-denied (Operation.put_object key d md ∷ ops) = run-denied ops
run-denied (Operation.delete_object key ∷ ops) = ground (arith, run-denied ops)
run-denied (Operation.fail_with e ∷ ops) = refl
run-denied (Operation.clear_all ∷ ops) = run-denied ops

-- A stored object is a copy of an upload.
abbrev stored : Option StoredObject → Option StoredObject
stored none = none
stored (some o) = some (record { digest = o.digest; metadata = copy_map o.metadata })

run-content :
    (ops : List Operation) (key : String) → lookup key (run ops).objects ≡ stored (content ops key)
unfolding new_store put delete fail_deletes clear lookup
run-content [] key = refl
run-content (Operation.put_object j d md ∷ ops) key = ground (
  arith,
  run-content ops key,
  eq_iff j key,
  lookup-insert j key (record { digest = d; metadata = copy_map md }) (run ops).objects,
)
run-content (Operation.delete_object j ∷ ops) key =
    ground (
      arith,
      run-content ops key,
      eq_iff j key,
      run-denied ops,
      lookup-erase j key (run ops).objects,
    )
run-content (Operation.fail_with e ∷ ops) key = run-content ops key
run-content (Operation.clear_all ∷ ops) key = refl

observe-stored :
    (s : FakeStore) (key : String) (o : Option StoredObject)
    → lookup key s.objects ≡ stored o
    → Shows o (observe s key)
unfolding observe
observe-stored s key none e = ground (arith, e)
observe-stored s key (some o) e =
    rw (e, observe)
      (record {
        there = refl;
        same_digest = refl;
        same_metadata =
            λ name. lookup-copy_map name (copy_map o.metadata) ∙ lookup-copy_map name o.metadata;
      })

-- After every history of uploads, deletions, refusals and clearings, an observation of a key shows
-- the last upload that no deletion and no clearing followed, with its digest and its metadata.
pub observe-Shows :
    (ops : List Operation) (key : String) → Shows (content ops key) (observe (run ops) key)
observe-Shows ops key = observe-stored (run ops) key (content ops key) (run-content ops key)
