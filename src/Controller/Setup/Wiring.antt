-- ===== src/Controller/Setup/Wiring.antt =====
-- Which Artifacts a change of their class wakes.
use artifact_controller.Prelude.{
  String, Bool, false, ◌||◌, ◌≡◌, ◌≢◌, refl, arith, eq_iff, some, inl, inr, List, [], ◌∷◌, map,
  ◌==◌, if◌then◌else◌, ap,
}
use artifact_controller.Prelude.Int.{pos, ◌≤ℤ◌}
use artifact_controller.Prelude.Result.{ok}
use artifact_controller.Prelude.Result.Bind.{Result-cases}
use artifact_controller.Toolkit.{Toolkit}
use artifact_controller.Api.Artifact.{Artifact}
use artifact_controller.Api.ArtifactClass.{ArtifactClass}
use artifact_controller.Controller.Setup.{
  Manager, Reconciler, ControllerOptions, class_index_key, class_index, object_key,
  artifacts_for_class, with_defaults, controller_options, setup_with_manager,
}

abbrev has : String → List String → Bool
has value [] = false
has value (v ∷ l) = v == value || has value l

-- The objects that have a value in an index.
abbrev pub indexed : (Artifact → List String) → String → List Artifact → List Artifact
indexed index value [] = []
indexed index value (a ∷ l) =
    if has value (index a) then a ∷ indexed index value l else indexed index value l

-- The documented behaviour of a field index: a list by its field gives the objects of the cache
-- that have the value in the index.
pub record IndexLaws (m : Manager) (index : Artifact → List String) : Type 0 where
  pub cached : List Artifact
  pub listed :
      (value : String) → m.list_matching class_index_key value ≡ ok (indexed index value cached)

-- The Artifacts whose classRef names the class.
abbrev pub referring : String → List Artifact → List Artifact
referring class [] = []
referring class (a ∷ l) =
    if a.spec.class_ref == class then a ∷ referring class l else referring class l

indexed-referring :
    (class : String) (l : List Artifact) → indexed class_index class l ≡ referring class l
indexed-referring class [] = refl
indexed-referring class (a ∷ l) = ground (arith, indexed-referring class l)

owner-NonEmpty : (owner : String) → (if owner == "" then "artifact-controller" else owner) ≢ ""
owner-NonEmpty owner h = ground (arith, h, eq_iff owner "", eq_iff "artifact-controller" "")

module _ (k : Toolkit) (m : Manager) (laws : IndexLaws m class_index) where
  -- The controller that was built wakes, for a class, the Artifacts that refer to it.
  pub record Wired (r : Reconciler m) : Type 0 where
    pub options : ControllerOptions
    pub controller : m.Controller
    pub built : m.build options ≡ ok controller
    pub kept : r.controller ≡ some controller
    pub woken :
        (class : ArtifactClass)
        → options.on_class class ≡ map object_key (referring class.name laws.cached)
    pub workers : pos 1 ≤ℤ options.max_concurrent_reconciles
    pub owner : r.field_owner ≢ ""

  artifacts_for_class-referring :
      (class : ArtifactClass)
      → artifacts_for_class m class ≡ map object_key (referring class.name laws.cached)
  unfolding artifacts_for_class
  artifacts_for_class-referring class =
      rw (artifacts_for_class, laws.listed class.name)
        (ap (map object_key) (indexed-referring class.name laws.cached))

  with_defaults-owner : (r : Reconciler m) → (with_defaults m r).field_owner ≢ ""
  unfolding with_defaults
  with_defaults-owner r = owner-NonEmpty r.field_owner

  owner-kept :
      (r r' : Reconciler m)
      → setup_with_manager m k r ≡ ok r'
      → r'.field_owner ≡ (with_defaults m r).field_owner
  unfolding setup_with_manager
  owner-kept r r' h = ground (arith, h)

  -- Where SetupWithManager succeeds, a controller was built that, on a change of a class, enqueues
  -- exactly the cached Artifacts whose classRef names the class, in their order. It has at least
  -- one worker, and the reconciler has a field owner.
  pub setup_with_manager-Wired : (r r' : Reconciler m) → setup_with_manager m k r ≡ ok r' → Wired r'
  unfolding setup_with_manager
  setup_with_manager-Wired r r' h =
      let r1 = with_defaults m r in
      elim (Result-cases (m.build (controller_options m r1))) [
        | inr (e, q) ↦ ground (arith, h, q)
        | inl (c, q) ↦ record {
          options = controller_options m r1;
          controller = c;
          built = q;
          kept = ground (arith, h, q);
          woken = artifacts_for_class-referring;
          workers = ground arith;
          owner = rw (owner-kept r r' h) (with_defaults-owner r);
        }
      ]
