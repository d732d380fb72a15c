-- ===== src/Manager/Drivers.antt =====
-- The classes for which the process has no driver.
use artifact_controller.Prelude.{
  String, Bool, true, false, ◌≡◌, ◌≢◌, refl, arith, inl, inr, eq_iff, none, some, List, [], ◌∷◌,
  if◌then◌else◌, All,
}
use artifact_controller.Prelude.Maps.{lookup, insert}
use artifact_controller.Prelude.Result.{Error, Result, ok, err}
use artifact_controller.Prelude.Result.Bind.{Result-cases}
use artifact_controller.Api.ArtifactClass.{ArtifactClass}
use artifact_controller.Toolkit.{Toolkit}
use artifact_controller.Calls.{Trace}
use artifact_controller.Store.{Driver, Factory, register, new_registry, driver_for}
use artifact_controller.Store.Fake.{FakeStore, register_fake, fake_factory}
use artifact_controller.Store.Http.{register_http, http_factory}
use artifact_controller.Store.Http.{new_driver as new_http}
use artifact_controller.Store.RepoManager.{register_repo_managers, repo_factory}
use artifact_controller.Store.RepoManager.Driver.{Flavour, new_driver as new_repo}
use artifact_controller.Store.Ami.{register_ami, ami_factory, new_driver as new_ami}
use artifact_controller.Store.Oci.{register_oci, oci_factory, new_driver as new_oci}
use artifact_controller.Store.Oci.Client.{Remote}
use artifact_controller.Store.S3.{Sdk, register_s3, s3_factory, new_driver as new_s3}
use artifact_controller.Web.{Web}
use artifact_controller.Manager.{Before, driver_registry}

abbrev pub driver_names : List String
driver_names = "s3" ∷ "oci" ∷ "ami" ∷ "http" ∷ "artifactory" ∷ "nexus" ∷ "fake" ∷ []

-- A class without the section of its driver, a class of the demo driver where that is off, and a
-- class of a driver that does not exist.
pub data Unserved (enable_fake_store : Bool) (class : ArtifactClass) : Type 0 where
  s3 : class.store.driver ≡ "s3" → class.store.s3 ≡ none → Unserved enable_fake_store class
  oci : class.store.driver ≡ "oci" → class.store.oci ≡ none → Unserved enable_fake_store class
  ami : class.store.driver ≡ "ami" → class.store.ami ≡ none → Unserved enable_fake_store class
  http : class.store.driver ≡ "http" → class.store.http ≡ none → Unserved enable_fake_store class
  artifactory :
      class.store.driver ≡ "artifactory"
      → class.store.repo_manager ≡ none
      → Unserved enable_fake_store class
  nexus :
      class.store.driver ≡ "nexus"
      → class.store.repo_manager ≡ none
      → Unserved enable_fake_store class
  demo : class.store.driver ≡ "fake" → enable_fake_store ≡ false → Unserved enable_fake_store class
  unknown : All (λ name. class.store.driver ≢ name) driver_names → Unserved enable_fake_store class

no_driver :
    (built : Result Driver) → ((d : Driver) → built ≡ ok d → ⊥) → (e : Error) × (built ≡ err e)
no_driver (err e) h = (e, refl)
no_driver (ok d) h = absurd (h d refl)

module _ (k : Toolkit) (w : Web) (r : Remote) (sdk : Sdk) (before : Before)
    (store : Trace → FakeStore) where
  abbrev factories : Bool → List (String × Factory)
  factories enabled =
      ("s3", s3_factory k sdk before.sdk)
      ∷ ("oci", oci_factory k r before.remote)
      ∷ ("ami", ami_factory k w before.web)
      ∷ ("http", http_factory k w before.web true)
      ∷ ("artifactory", repo_factory k w before.web true Flavour.artifactory)
      ∷ ("nexus", repo_factory k w before.web true Flavour.nexus)
      ∷ (if enabled then ("fake", fake_factory store) ∷ [] else [])

  factories-eq :
      (enabled : Bool)
      → (driver_registry k w r sdk before store enabled).factories ≡ factories enabled
  unfolding driver_registry register lookup insert new_registry register_s3 register_oci
      register_ami register_http register_repo_managers register_fake
  factories-eq true = refl
  factories-eq false = refl

  abbrev Refused : Bool → Trace → ArtifactClass → Type 0
  Refused enabled calls class =
      (e : Error) × (driver_for k (driver_registry k w r sdk before store enabled) calls class
        ≡ err e)

  factory-Refused :
      (enabled : Bool) (calls : Trace) (class : ArtifactClass) (name : String) (f : Factory)
      → class.store.driver ≡ name
      → lookup name (factories enabled) ≡ some f
      → (e : Error) × (f calls class ≡ err e)
      → Refused enabled calls class
  unfolding driver_for
  factory-Refused enabled calls class name f d q (e, h) =
      let found : lookup class.store.driver
            (driver_registry k w r sdk before store enabled).factories
          ≡ some f =
        rw (d, factories-eq enabled) q in
      (e, ground (arith, found, h))

  missing-Refused :
      (enabled : Bool) (calls : Trace) (class : ArtifactClass)
      → lookup class.store.driver (factories enabled) ≡ none
      → Refused enabled calls class
  unfolding driver_for
  missing-Refused enabled calls class q =
      let found : lookup class.store.driver
            (driver_registry k w r sdk before store enabled).factories
          ≡ none =
        rw (factories-eq enabled) q in
      elim (Result-cases
        (driver_for k (driver_registry k w r sdk before store enabled) calls class)) [
          | inr refused ↦ refused
          | inl (d, p) ↦ ground (arith, found, p)
        ]

  -- No driver is built for a class that lacks the section of its driver, for the demo driver where
  -- it is not enabled, or for a driver of another name: the resolution ends with an error.
  pub driver_for-Unserved :
      (enabled : Bool) (calls : Trace) (class : ArtifactClass)
      → Unserved enabled class
      → (e : Error) × (driver_for k (driver_registry k w r sdk before store enabled) calls class
          ≡ err e)
  unfolding lookup s3_factory new_s3 oci_factory new_oci ami_factory new_ami http_factory new_http
      repo_factory new_repo
  driver_for-Unserved enabled calls class (s3 a n) =
      factory-Refused enabled calls class "s3" (s3_factory k sdk before.sdk) a refl
        (no_driver _ (λ d p. ground (arith, n, p)))
  driver_for-Unserved enabled calls class (oci a n) =
      factory-Refused enabled calls class "oci" (oci_factory k r before.remote) a refl
        (no_driver _ (λ d p. ground (arith, n, p)))
  driver_for-Unserved enabled calls class (ami a n) =
      factory-Refused enabled calls class "ami" (ami_factory k w before.web) a refl
        (no_driver _ (λ d p. ground (arith, n, p)))
  driver_for-Unserved enabled calls class (http a n) =
      factory-Refused enabled calls class "http" (http_factory k w before.web true) a refl
        (no_driver _ (λ d p. ground (arith, n, p)))
  driver_for-Unserved enabled calls class (artifactory a n) =
      factory-Refused enabled calls class "artifactory"
        (repo_factory k w before.web true Flavour.artifactory) a refl
        (no_driver _ (λ d p. ground (arith, n, p)))
  driver_for-Unserved enabled calls class (nexus a n) =
      factory-Refused enabled calls class "nexus" (repo_factory k w before.web true Flavour.nexus) a
        refl (no_driver _ (λ d p. ground (arith, n, p)))
  driver_for-Unserved enabled calls class (demo a n) =
      missing-Refused enabled calls class (rw (a, n) refl)
  driver_for-Unserved enabled calls class (unknown n) = missing-Refused enabled calls class (
      ground (
        arith,
        n,
        eq_iff "s3" class.store.driver,
        eq_iff "oci" class.store.driver,
        eq_iff "ami" class.store.driver,
        eq_iff "http" class.store.driver,
        eq_iff "artifactory" class.store.driver,
        eq_iff "nexus" class.store.driver,
        eq_iff "fake" class.store.driver,
      ))
