-- ===== src/Controller/Run.antt =====
-- Generator runs in artifact_controller.go: references, names, start times, status summaries, the
-- watch on a run's kind, and the cancellation of a run.
pub mod Bounds
use Prim.Native.String.{len, slice, ◌++◌ as append}
use artifact_controller.Prelude.{
  String, Bool, false, ◌||◌, ◌&&◌, Option, none, some, List, [], ◌∷◌, map, ltb, ◌==◌, if◌then◌else◌,
}
use artifact_controller.Prelude.Int.{ℤ}
use artifact_controller.Prelude.Result.{Error, is_not_found}
use artifact_controller.Api.Json.{Value, Object, Members, close, entry, get_member, keys}
use artifact_controller.Api.Artifact.{Artifact, GeneratorReference}
use artifact_controller.Toolkit.{Toolkit, GroupVersionKind, Arg}
use artifact_controller.Calls.{Call, EventType}
use artifact_controller.Store.Names.{sort, join}
use artifact_controller.Hash.{short}
use artifact_controller.Controller.Session.{Cluster, Session, call, emit}

-- generatorRefFor
unfoldable pub generator_ref_for : Toolkit → Object → GeneratorReference
generator_ref_for k u = record {
  api_version = k.get_api_version u;
  kind = k.get_kind u;
  name = k.get_name u;
  namespace = k.get_namespace u;
}

-- runName: "%s-%s-r%d"
unfoldable pub run_name : Toolkit → Artifact → String → ℤ → String
run_name k obj spec_hash attempt =
    let base = if ltb 40 (len obj.name) then slice obj.name 0 40 else obj.name in
    append base (append "-" (append (short spec_hash 8) (append "-r" (k.itoa attempt))))

-- runStartTime
unfoldable pub run_start_time : Toolkit → Object → Artifact → ℤ
run_start_time k run obj = elim (k.get_creation_timestamp run) [
  | some ts ↦ ts
  | none ↦ elim obj.status.last_failure_time [ some lf ↦ lf | none ↦ obj.creation_timestamp ]
]

-- A scalar is shown with its value, anything else by its key.
abbrev pub status_part : Toolkit → String → Option Value → String
status_part k key (some (Value.text t)) = append key (append "=" (k.format_value (Value.text t)))
status_part k key (some (Value.bool b)) = append key (append "=" (k.format_value (Value.bool b)))
status_part k key (some (Value.int64 i)) = append key (append "=" (k.format_value (Value.int64 i)))
status_part k key (some (Value.float64 f)) =
    append key (append "=" (k.format_value (Value.float64 f)))
status_part k key _ = key

unfoldable pub truncate : String → String
truncate out = if ltb 160 (len out) then append (slice out 0 157) "..." else out

unfoldable pub summarize_members : Toolkit → Members → String
unfolding truncate keys get_member
summarize_members k close = "status is empty"
summarize_members k (entry j v o) = truncate (
    join " "
      (map (λ key. status_part k key (get_member key (entry j v o))) (sort (keys (entry j v o)))))

abbrev pub summarize_value : Toolkit → Option Value → String
summarize_value k (some (Value.obj o)) = summarize_members k o
summarize_value k _ = "status is empty"

-- summarizeStatus
unfoldable pub summarize_status : Toolkit → Object → String
unfolding summarize_members get_member
summarize_status k run = summarize_value k (get_member "status" run)

module _ (k : Toolkit) where
  same_kind : GroupVersionKind → GroupVersionKind → Bool
  same_kind a b = a.group == b.group && (a.version == b.version && a.kind == b.kind)

  unfoldable pub is_watched : GroupVersionKind → List GroupVersionKind → Bool
  unfolding same_kind
  is_watched gvk [] = false
  is_watched gvk (g ∷ gs) = same_kind g gvk || is_watched gvk gs

  -- ensureGeneratorWatch: LoadOrStore, then Watch, whose failure takes the entry out again. The
  -- caller only logs the error.
  unfoldable pub ensure_generator_watch : Cluster → GroupVersionKind → Session k → Session k
  unfolding is_watched
  ensure_generator_watch c gvk s =
      if is_watched gvk s.watched
      then s
      else let s' = call (Call.watch gvk) s in
        elim (c.watch s.trace gvk) [ none ↦ record s' { watched = gvk ∷ s.watched } | some e ↦ s' ]

  abbrev cancel_failed : GeneratorReference → Error → Session k → Session k × Option Error
  cancel_failed ref e s = if is_not_found e.kind then (s, none) else (
    s,
    some (record e {
      text =
          k.sprintf "cancel generator run %s %q: %w"
            (Arg.text ref.kind ∷ Arg.text ref.name ∷ Arg.text e.text ∷ []);
    }),
  )

  -- deleteAbandonedRun: no error means that the run is confirmed gone.
  unfoldable pub delete_abandoned_run :
      Cluster → GeneratorReference → String → Session k → Session k × Option Error
  delete_abandoned_run c ref why s =
      let s' = call (Call.delete_run ref) s in
      elim (c.delete_run s.trace ref) [
        | none ↦ (
          emit EventType.normal "GeneratorRunCancelled"
              (k.sprintf "deleted generator run %s %q: %s"
                (Arg.text ref.kind ∷ Arg.text ref.name ∷ Arg.text why ∷ []))
              s',
          none,
        )
        | some e ↦ cancel_failed ref e s'
      ]
