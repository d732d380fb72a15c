-- ===== src/Store/Oci/Deleting.antt =====
-- What the oci driver's deletion has done when it succeeds.
use artifact_controller.Prelude.{
  String, Bool, true, ◌||◌, ◌≡◌, refl, arith, subst, sym, ◌∷◌, inl, inr,
}
use Prim.Native.String.{◌++◌}
use artifact_controller.Prelude.Result.{ok}
use artifact_controller.Prelude.Result.Bind.{Result-cases}
use artifact_controller.Toolkit.{Toolkit}
use artifact_controller.Store.Oci.Client.{
  Remote, RemoteError, RemoteResult, RemoteCall, Calls, done, failed,
}
use artifact_controller.Store.Oci.{
  OciDriver, is_not_found, is_unsupported, tag, delete_ref, delete_resolved, delete,
}

module _ (k : Toolkit) (r : Remote) where
  -- The registry did a deletion, or refused it with an error that is tolerated.
  abbrev pub Done : (RemoteError → Bool) → RemoteResult (Unit {0}) → Type 0
  Done tolerated (done u) = Unit
  Done tolerated (failed e) = tolerated e ≡ true

  abbrev pub tag_tolerated : RemoteError → Bool
  tag_tolerated e = is_not_found e || is_unsupported e

  -- The manifest was deleted by its digest, then the tag.
  pub record Gone (d : OciDriver) (ref digest : String) (before after : Calls) : Type 0 where
    pub digest_ref : String
    pub built : r.new_digest d.insecure (d.repo ++ ("@" ++ digest)) ≡ ok digest_ref
    pub manifest : Done is_not_found (r.delete before digest_ref)
    pub pointer : Done tag_tolerated (r.delete (RemoteCall.delete digest_ref ∷ before) ref)
    pub calls : after ≡ RemoteCall.delete ref ∷ RemoteCall.delete digest_ref ∷ before

  -- What a deletion that succeeded did, by the registry's answer for the tag.
  abbrev pub Deleted : OciDriver → String → RemoteResult String → Calls → Calls → Type 0
  Deleted d ref (failed e) before after = (is_not_found e ≡ true) × (after ≡ before)
  Deleted d ref (done digest) before after = Gone d ref digest before after

  delete_ref-Done :
      (tolerated : RemoteError → Bool) (format ref : String) (log : Calls)
      → (delete_ref k r tolerated format ref log).0 ≡ ok tt
      → Done tolerated (r.delete log ref)
  unfolding delete_ref
  delete_ref-Done tolerated format ref log e = ground (arith, e)

  delete_ref-log :
      (tolerated : RemoteError → Bool) (format ref : String) (log : Calls)
      → (delete_ref k r tolerated format ref log).1 ≡ RemoteCall.delete ref ∷ log
  unfolding delete_ref
  delete_ref-log tolerated format ref log = refl

  delete_both-Gone :
      (d : OciDriver) (ref digest digest_ref : String) (log : Calls)
      → r.new_digest d.insecure (d.repo ++ ("@" ++ digest)) ≡ ok digest_ref
      → (delete_resolved k r d ref (done digest) log).0 ≡ ok tt
      → Gone d ref digest log (delete_resolved k r d ref (done digest) log).1
  unfolding delete_resolved
  delete_both-Gone d ref digest digest_ref log q e =
      elim (Result-cases (delete_ref k r is_not_found "delete %s: %w" digest_ref log).0) [
        | inr (x, p) ↦ ground (arith, q, p, e)
        | inl (u, p) ↦
            let next = RemoteCall.delete digest_ref ∷ log in
            let first = delete_ref-log is_not_found "delete %s: %w" digest_ref log in
            let last : (delete_ref k r tag_tolerated "delete tag %s: %w" ref next).0 ≡ ok tt =
              ground (arith, q, p, e, first) in
            record {
              digest_ref = digest_ref;
              built = q;
              manifest = delete_ref-Done is_not_found "delete %s: %w" digest_ref log p;
              pointer = delete_ref-Done tag_tolerated "delete tag %s: %w" ref next last;
              calls =
                  ground
                    (arith, q, p, first, delete_ref-log tag_tolerated "delete tag %s: %w" ref next);
            }
      ]

  delete_resolved-Deleted :
      (d : OciDriver) (ref : String) (answer : RemoteResult String) (log : Calls)
      → (delete_resolved k r d ref answer log).0 ≡ ok tt
      → Deleted d ref answer log (delete_resolved k r d ref answer log).1
  unfolding delete_resolved
  delete_resolved-Deleted d ref (failed x) log e = ground (arith, e)
  delete_resolved-Deleted d ref (done digest) log e =
      elim (Result-cases (r.new_digest d.insecure (d.repo ++ ("@" ++ digest)))) [
        | inr (x, p) ↦ ground (arith, p, e)
        | inl (digest_ref, p) ↦ delete_both-Gone d ref digest digest_ref log p e
      ]

  -- A deletion succeeds only if the registry does not know the tag, and then nothing is deleted, or
  -- after it deleted the manifest that the tag resolved to, or did not know it any more, and then
  -- deleted the tag, did not know it any more or declines to delete tags. A refusal to delete the
  -- manifest is never tolerated.
  pub delete-Deleted :
      (d : OciDriver) (key : String) (log : Calls)
      → (delete k r d key log).0 ≡ ok tt
      → (ref : String) × (tag k r d key ≡ ok ref)
        × Deleted d ref (r.head log ref) (RemoteCall.head ref ∷ log) (delete k r d key log).1
  unfolding delete
  delete-Deleted d key log e = elim (Result-cases (tag k r d key)) [
    | inr (x, p) ↦ ground (arith, p, e)
    | inl (ref, p) ↦
        let next = RemoteCall.head ref ∷ log in
        let q : (delete_resolved k r d ref (r.head log ref) next).0 ≡ ok tt =
          ground (arith, p, e) in
        let same : (delete k r d key log).1 ≡ (delete_resolved k r d ref (r.head log ref) next).1 =
          ground (arith, p) in
        (
          ref,
          p,
          subst (λ after. Deleted d ref (r.head log ref) next after) (sym same)
              (delete_resolved-Deleted d ref (r.head log ref) next q),
        )
  ]
