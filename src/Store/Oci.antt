-- ===== src/Store/Oci.antt =====
-- internal/store/oci/oci.go: image registries, over go-containerregistry.
pub mod Client
pub mod Observing
pub mod Deleting
use Prim.Native.String.{◌++◌}
use artifact_controller.Prelude.{
  ℕ, String, Bool, true, false, not, ◌==◌, ◌&&◌, ◌||◌, equal, Option, none, some, List, [], ◌∷◌,
  ◌*◌, if◌then◌else◌,
}
use artifact_controller.Prelude.Maps.{Map, lookup, insert}
use artifact_controller.Prelude.Result.{Error, Result, ok, err, errorf, map_error}
use artifact_controller.Api.ArtifactClass.{ArtifactClass, stamp_metadata_key}
use artifact_controller.Toolkit.{Toolkit, Arg}
use artifact_controller.Calls.{Trace}
use artifact_controller.Store.{Observation, no_observation, Factory, Registry, register}
use artifact_controller.Store.Adapter.{adapt}
use artifact_controller.Store.Metadata.{publish}
use artifact_controller.Store.Oci.Client.{
  Remote, RemoteError, RemoteResult, RemoteCall, Calls, Descriptor, MediaType, ErrorCode, done,
  failed,
}
use artifact_controller.Web.Io.{Io, ◌>>=◌, ◌>>◌, pure, raise, lift}

-- driver; the keychain is that of every call.
pub record OciDriver : Type 0 where
  pub repo : String
  pub insecure : Bool
  pub stamp_anno : String

abbrev is_unknown : ErrorCode → Bool
is_unknown ErrorCode.manifest_unknown = true
is_unknown ErrorCode.name_unknown = true
is_unknown _ = false

abbrev is_unsupported_code : ErrorCode → Bool
is_unsupported_code ErrorCode.unsupported = true
is_unsupported_code _ = false

abbrev any_code : (ErrorCode → Bool) → List ErrorCode → Bool
any_code p [] = false
any_code p (c ∷ l) = p c || any_code p l

-- isNotFound
unfoldable pub is_not_found : RemoteError → Bool
is_not_found e = elim e.transport [
  | none ↦ false
  | some t ↦ equal t.status_code 404 || any_code is_unknown t.codes
]

-- isUnsupported
unfoldable pub is_unsupported : RemoteError → Bool
is_unsupported e = elim e.transport [
  | none ↦ false
  | some t ↦
      equal t.status_code 405 || (equal t.status_code 400 || any_code is_unsupported_code t.codes)
]

-- isImageManifest
abbrev pub is_image_manifest : MediaType → Bool
is_image_manifest MediaType.oci_manifest_schema1 = true
is_image_manifest MediaType.docker_manifest_schema2 = true
is_image_manifest _ = false

-- The labels under lower-case names that are not there yet.
unfoldable pub add_missing : (String → String) → Map String → Map String → Map String
add_missing to_lower [] md = md
add_missing to_lower (e ∷ rest) md =
    add_missing to_lower rest
      (elim (lookup (to_lower e.0) md) [ none ↦ insert (to_lower e.0) e.1 md | some v ↦ md ])

module _ (k : Toolkit) (r : Remote) where
  -- fmt.Errorf(format, ref, err)
  abbrev of_ref {ℓ} : {A : Type ℓ} → String → String → Result A → Result A
  of_ref format ref = map_error (λ e. k.sprintf format (Arg.text ref ∷ Arg.text e ∷ []))

  abbrev as_error : String → String → RemoteError → Error
  as_error format ref e = errorf (k.sprintf format (Arg.text ref ∷ Arg.text e.text ∷ []))

  -- factory
  unfoldable pub new_driver : ArtifactClass → Result OciDriver
  new_driver class = elim class.store.oci [
    | none ↦ err (
        errorf (
          k.sprintf "class %s: store.driver is oci but store.oci is not set"
            (Arg.text class.name ∷ [])))
    | some cfg ↦ elim (r.new_repository cfg.insecure cfg.repository) [
      | err e ↦ err (record e {
        text =
            k.sprintf "class %s: invalid repository %q: %w"
              (Arg.text class.name ∷ Arg.text cfg.repository ∷ Arg.text e.text ∷ []);
      })
      | ok repo ↦ ok (record {
        repo = repo;
        insecure = cfg.insecure;
        stamp_anno = stamp_metadata_key k.to_lower class;
      })
    ]
  ]

  -- tag
  unfoldable pub tag : OciDriver → String → Result String
  tag d key =
      map_error
        (λ e.
          k.sprintf "invalid tag %q in %s: %w" (Arg.text key ∷ Arg.text d.repo ∷ Arg.text e ∷ []))
        (r.new_tag d.insecure (d.repo ++ (":" ++ key)))

  -- The image config's labels, of an image manifest without a stamp.
  unfoldable pub with_labels : String → Descriptor → Map String → Io Calls (Map String)
  with_labels ref desc md = do
    image ← lift (of_ref "read image %s: %w" ref desc.image)
    labels ← λ log. (
      of_ref "read image config %s: %w" ref (r.config_labels log image),
      RemoteCall.config ref ∷ log,
    )
    pure (add_missing k.to_lower labels md)

  abbrev has_stamp : OciDriver → Map String → Bool
  has_stamp d md = elim (lookup d.stamp_anno md) [ none ↦ false | some v ↦ true ]

  -- The metadata of a manifest: its annotations, else also the labels of its config.
  unfoldable pub metadata_of : OciDriver → String → Descriptor → Io Calls (Map String)
  metadata_of d ref desc =
      lift (of_ref "parse manifest %s: %w" ref (r.unmarshal_annotations desc.manifest))
      >>= λ annotations.
          let md = publish k.to_lower annotations [] in
          if not (has_stamp d md) && is_image_manifest desc.media_type
          then with_labels ref desc md
          else pure md

  -- Observe, with the answer for the manifest.
  unfoldable pub observed : OciDriver → String → RemoteResult Descriptor → Io Calls Observation
  observed d ref (failed e) =
      if is_not_found e then pure no_observation else raise (as_error "get manifest %s: %w" ref e)
  observed d ref (done desc) = metadata_of d ref desc >>= λ md.
      pure (record { exists = true; digest = desc.digest; metadata = md })

  -- Observe
  unfoldable pub observe : OciDriver → String → Io Calls Observation
  observe d key = do
    ref ← lift (tag d key)
    answer ← λ log. (ok (r.get log ref), RemoteCall.get ref ∷ log)
    observed d ref answer

  abbrev accepted :
      (RemoteError → Bool) → String → String → RemoteResult (Unit {0}) → Result (Unit {0})
  accepted tolerated format ref (done u) = ok tt
  accepted tolerated format ref (failed e) =
      if tolerated e then ok tt else err (as_error format ref e)

  -- remote.Delete; errors that are tolerated count as done.
  unfoldable pub delete_ref : (RemoteError → Bool) → String → String → Io Calls (Unit {0})
  delete_ref tolerated format ref log =
      (accepted tolerated format ref (r.delete log ref), RemoteCall.delete ref ∷ log)

  -- Delete, with the answer for the tag: the manifest by its digest, then the tag.
  unfoldable pub delete_resolved : OciDriver → String → RemoteResult String → Io Calls (Unit {0})
  delete_resolved d ref (failed e) =
      if is_not_found e then pure tt else raise (as_error "head %s: %w" ref e)
  delete_resolved d ref (done digest) = do
    digest_ref ← lift (
        of_ref "build digest reference for %s: %w" ref
          (r.new_digest d.insecure (d.repo ++ ("@" ++ digest))))
    delete_ref is_not_found "delete %s: %w" digest_ref
    delete_ref (λ e. is_not_found e || is_unsupported e) "delete tag %s: %w" ref

  -- Delete
  unfoldable pub delete : OciDriver → String → Io Calls (Unit {0})
  delete d key = do
    ref ← lift (tag d key)
    answer ← λ log. (ok (r.head log ref), RemoteCall.head ref ∷ log)
    delete_resolved d ref answer

  -- The factory of Register: its drivers share nothing.
  unfoldable pub oci_factory : (Trace → Calls) → Factory
  oci_factory before tr class = elim (new_driver class) [
    | err e ↦ err e
    | ok d ↦ ok (adapt before (observe d) (delete d))
  ]

  -- Register
  unfoldable pub register_oci : (Trace → Calls) → Registry → Registry
  register_oci before = register "oci" (oci_factory before)
