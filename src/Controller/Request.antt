-- ===== src/Controller/Request.antt =====
-- Reconcile of artifact_controller.go: the read, the handler, and the deferred patch.
use artifact_controller.Prelude.{String, not, Option, none, some, List, [], ◌∷◌, if◌then◌else◌}
use artifact_controller.Prelude.Int.{pos}
use artifact_controller.Prelude.Result.{Error, ok, err, is_not_found}
use artifact_controller.Api.Artifact.{Artifact, artifact_finalizer}
use artifact_controller.Toolkit.{Toolkit, GroupVersionKind}
use artifact_controller.Calls.{Call, Trace}
use artifact_controller.Generator.Evaluator.{Cache}
use artifact_controller.Controller.Session.{Cluster, Session, Outcome, requeue, call}
use artifact_controller.Controller.Removal.{reconcile_delete}
use artifact_controller.Controller.Reconcile.{reconcile}

module _ (k : Toolkit) where
  -- What the reconciler keeps between requests.
  pub record Memory : Type 0 where
    pub trace : Trace
    pub progs : Cache k
    pub watched : List GroupVersionKind

  abbrev pub keep : Session k → Memory
  keep s = record { trace = s.trace; progs = s.progs; watched = s.watched }

  abbrev pub opened : Memory → Artifact → Call → Session k
  opened m obj a = record { obj = obj; trace = a ∷ m.trace; progs = m.progs; watched = m.watched }

module _ (k : Toolkit) (c : Cluster) where
  -- Reconcile between the read and the deferred patch.
  unfoldable pub handle : Session k → Session k × Outcome
  handle s = elim s.obj.deletion_timestamp [
    | some t ↦ reconcile_delete k c s
    | none ↦
        if not (k.contains_finalizer s.obj.finalizers artifact_finalizer)
        then requeue (pos 10000000) (record s {
          obj = record s.obj { finalizers = k.add_finalizer s.obj.finalizers artifact_finalizer };
        })
        else reconcile k c s
  ]

  abbrev combine : Option Error → Error → Error
  combine none p = k.aggregate (p ∷ [])
  combine (some e) p = k.aggregate (e ∷ p ∷ [])

  -- The error of the patch that counts: on a deleted object NotFound does not.
  abbrev patch_error : Artifact → Error → Option Error
  patch_error obj p = elim obj.deletion_timestamp [
    | none ↦ some p
    | some t ↦ k.filter_out_not_found p
  ]

  -- The deferred patch.
  unfoldable pub finish : Session k → Outcome → Session k × Outcome
  finish s o =
      let s1 = call (Call.patch s.obj) s in
      elim (c.patch s.trace s.obj) [
        | none ↦ (s1, o)
        | some p ↦ elim (patch_error s.obj p) [
          | none ↦ (s1, o)
          | some p' ↦ (s1, record o { error = some (combine o.error p') })
        ]
      ]

  -- Reconcile
  unfoldable pub reconcile_request : String → String → Memory k → Memory k × Outcome
  reconcile_request namespace name m =
      let tr = Call.get_artifact namespace name ∷ m.trace in
      elim (c.get_artifact m.trace namespace name) [
        | err e ↦ (
          record m { trace = tr },
          record { requeue_after = pos 0; error = if is_not_found e.kind then none else some e },
        )
        | ok obj ↦
            (let (s, o) = handle (opened k m obj (Call.get_artifact namespace name)) in
              let (s1, o1) = finish s o in (keep k s1, o1))
      ]
