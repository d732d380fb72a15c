-- ===== src/Store/Oci/Observing.antt =====
-- What the oci driver reports: absence, and where the stamp is read from.
use artifact_controller.Prelude.{
  String, true, false, ◌≡◌, refl, arith, eq_iff, [], ◌∷◌, inl, inr, ◌⊎◌, Bool-cases, subst, sym,
}
use artifact_controller.Prelude.Maps.{Map, lookup, insert, lookup-insert}
use artifact_controller.Prelude.Result.{ok}
use artifact_controller.Prelude.Result.Bind.{Result-cases}
use artifact_controller.Toolkit.{Toolkit}
use artifact_controller.Store.{Observation, no_observation}
use artifact_controller.Store.Metadata.{publish}
use artifact_controller.Store.Metadata.Order.{said, or_else}
use artifact_controller.Store.Oci.Client.{
  Remote, RemoteError, RemoteResult, RemoteCall, Calls, Descriptor, done, failed,
}
use artifact_controller.Store.Oci.{
  OciDriver, is_not_found, is_image_manifest, add_missing, tag, with_labels, has_stamp, metadata_of,
  observed, observe,
}

RemoteResult-cases :
    {A : Type 0} (r : RemoteResult A)
    → ((e : RemoteError) × (r ≡ failed e)) ⊎ ((a : A) × (r ≡ done a))
RemoteResult-cases (failed e) = inl (e, refl)
RemoteResult-cases (done a) = inr (a, refl)

-- A label counts only where no annotation and no earlier label has its name in lower case.
lookup-add_missing :
    (to_lower : String → String) (name : String) (labels md : Map String)
    → lookup name (add_missing to_lower labels md)
      ≡ or_else (lookup name md) (said to_lower name labels)
unfolding add_missing said
lookup-add_missing to_lower name [] md = ground arith
lookup-add_missing to_lower name (e ∷ rest) md = ground (
  arith,
  lookup-add_missing to_lower name rest md,
  lookup-add_missing to_lower name rest (insert (to_lower e.0) e.1 md),
  lookup-insert (to_lower e.0) name e.1 md,
  eq_iff (to_lower e.0) name,
)

module _ (k : Toolkit) (r : Remote) where
  -- The labels that count. None are read where the annotations carry the stamp, or of anything but
  -- an image manifest; else they are those of the image's config, which is read then.
  pub data Labelled (d : OciDriver) (ref : String) (desc : Descriptor) (annotations : Map String)
      (labels : Map String) (before after : Calls) : Type 0 where
    unread :
        (has_stamp k r d (publish k.to_lower annotations []) ≡ true)
          ⊎ (is_image_manifest desc.media_type ≡ false)
        → labels ≡ []
        → after ≡ before
        → Labelled d ref desc annotations labels before after
    config :
        (image : String)
        → has_stamp k r d (publish k.to_lower annotations []) ≡ false
        → is_image_manifest desc.media_type ≡ true
        → desc.image ≡ ok image
        → r.config_labels before image ≡ ok labels
        → after ≡ RemoteCall.config ref ∷ before
        → Labelled d ref desc annotations labels before after

  -- The metadata of a manifest that was found, with the calls before and after it was read.
  pub record Described (d : OciDriver) (ref : String) (desc : Descriptor) (md : Map String)
      (before after : Calls) : Type 0 where
    pub annotations : Map String
    pub parsed : r.unmarshal_annotations desc.manifest ≡ ok annotations
    pub labels : Map String
    pub source : Labelled d ref desc annotations labels before after
    pub found :
        (name : String)
        → lookup name md
          ≡ or_else (lookup name (publish k.to_lower annotations [])) (said k.to_lower name labels)

  with_labels-Described :
      (d : OciDriver) (ref : String) (desc : Descriptor) (annotations : Map String)
      (md : Map String) (log : Calls)
      → r.unmarshal_annotations desc.manifest ≡ ok annotations
      → has_stamp k r d (publish k.to_lower annotations []) ≡ false
      → is_image_manifest desc.media_type ≡ true
      → (with_labels k r ref desc (publish k.to_lower annotations []) log).0 ≡ ok md
      → Described d ref desc md log
          (with_labels k r ref desc (publish k.to_lower annotations []) log).1
  unfolding with_labels
  with_labels-Described d ref desc annotations md log p n i e = elim (Result-cases desc.image) [
    | inr (x, q) ↦ ground (arith, q, e)
    | inl (image, q) ↦ elim (Result-cases (r.config_labels log image)) [
      | inr (x, c) ↦ ground (arith, q, c, e)
      | inl (labels, c) ↦ record {
        annotations = annotations;
        parsed = p;
        labels = labels;
        source = config image n i q c (ground (arith, q, c));
        found = λ name.
            (let same : md ≡ add_missing k.to_lower labels (publish k.to_lower annotations []) =
                ground (arith, q, c, e) in
              rw same
                (lookup-add_missing k.to_lower name labels (publish k.to_lower annotations [])));
      }
    ]
  ]

  -- Without labels.
  annotations-Described :
      (d : OciDriver) (ref : String) (desc : Descriptor) (annotations md : Map String)
      (before after : Calls)
      → r.unmarshal_annotations desc.manifest ≡ ok annotations
      → (has_stamp k r d (publish k.to_lower annotations []) ≡ true)
        ⊎ (is_image_manifest desc.media_type ≡ false)
      → publish k.to_lower annotations [] ≡ md
      → after ≡ before
      → Described d ref desc md before after
  unfolding said
  annotations-Described d ref desc annotations md before after p n e same = record {
    annotations = annotations;
    parsed = p;
    labels = [];
    source = unread n refl same;
    found = λ name. ground (arith, e);
  }

  metadata_of-Described :
      (d : OciDriver) (ref : String) (desc : Descriptor) (md : Map String) (log : Calls)
      → (metadata_of k r d ref desc log).0 ≡ ok md
      → Described d ref desc md log (metadata_of k r d ref desc log).1
  unfolding metadata_of
  metadata_of-Described d ref desc md log e =
      elim (Result-cases (r.unmarshal_annotations desc.manifest)) [
        | inr (x, p) ↦ ground (arith, p, e)
        | inl (annotations, p) ↦
            elim (Bool-cases (has_stamp k r d (publish k.to_lower annotations []))) [
              | inl t ↦
                  annotations-Described d ref desc annotations md log _ p (inl t)
                    (ground (arith, p, t, e)) (ground (arith, p, t))
              | inr n ↦ elim (Bool-cases (is_image_manifest desc.media_type)) [
                | inr i ↦
                    annotations-Described d ref desc annotations md log _ p (inr i)
                      (ground (arith, p, n, i, e)) (ground (arith, p, n, i))
                | inl i ↦
                    (let md' = publish k.to_lower annotations [] in
                      let same : (metadata_of k r d ref desc log).1
                          ≡ (with_labels k r ref desc md' log).1 =
                        ground (arith, p, n, i) in
                      subst (Described d ref desc md log) (sym same) (
                        with_labels-Described d ref desc annotations md log p n i
                          (ground (arith, p, n, i, e))))
              ]
            ]
      ]

  -- What an observation reports of the registry's answer: absence only of a manifest that the
  -- registry does not know, else the manifest's digest and metadata.
  abbrev pub Answered :
      OciDriver → String → RemoteResult Descriptor → Observation → Calls → Calls → Type 0
  Answered d ref (failed e) obs before after =
      (is_not_found e ≡ true) × (obs ≡ no_observation) × (after ≡ before)
  Answered d ref (done desc) obs before after =
      (obs.exists ≡ true)
      × (obs.digest ≡ desc.digest)
      × Described d ref desc obs.metadata before after

  observed-Answered :
      (d : OciDriver) (ref : String) (answer : RemoteResult Descriptor) (obs : Observation)
      (log : Calls)
      → (observed k r d ref answer log).0 ≡ ok obs
      → Answered d ref answer obs log (observed k r d ref answer log).1
  unfolding observed
  observed-Answered d ref (failed x) obs log e = ground (arith, e)
  observed-Answered d ref (done desc) obs log e =
      elim (Result-cases (metadata_of k r d ref desc log).0) [
        | inr (x, p) ↦ ground (arith, p, e)
        | inl (md, p) ↦
            let read : (observed k r d ref (done desc) log).1 ≡ (metadata_of k r d ref desc log).1 =
              ground (arith, p) in
            let described : Described d ref desc md log (observed k r d ref (done desc) log).1 =
              subst (Described d ref desc md log) (sym read)
                (metadata_of-Described d ref desc md log p) in
            let same : obs ≡ record { exists = true; digest = desc.digest; metadata = md } =
              ground (arith, p, e) in
            rw same ((refl, refl, described))
      ]

  -- An observation by the oci driver that succeeds shows what the registry answered for the tag: the object is absent
  -- only where the registry does not know the manifest; else its digest is the manifest's, and a
  -- name is looked up in the annotations first and in the labels of the image's config where they
  -- have none. The config is read for an image manifest without the stamp in its annotations, and in
  -- no other case; where it is read and fails, the observation fails.
  pub observe-Answered :
      (d : OciDriver) (key : String) (log : Calls) (obs : Observation)
      → (observe k r d key log).0 ≡ ok obs
      → (ref : String) × (tag k r d key ≡ ok ref)
        × Answered d ref (r.get log ref) obs (RemoteCall.get ref ∷ log) (observe k r d key log).1
  unfolding observe
  observe-Answered d key log obs e = elim (Result-cases (tag k r d key)) [
    | inr (x, p) ↦ ground (arith, p, e)
    | inl (ref, p) ↦ (
      ref,
      p,
      subst (Answered d ref (r.get log ref) obs (RemoteCall.get ref ∷ log))
          (let same : (observed k r d ref (r.get log ref) (RemoteCall.get ref ∷ log)).1
                ≡ (observe k r d key log).1 =
              ground (arith, p) in
            same)
          (observed-Answered d ref (r.get log ref) obs (RemoteCall.get ref ∷ log)
            (ground (arith, p, e))),
    )
  ]
