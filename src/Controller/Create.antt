-- ===== src/Controller/Create.antt =====
-- createRun of artifact_controller.go: a new generator run.
use artifact_controller.Prelude.{String, none, some, [], ◌∷◌, ◌*◌, if◌then◌else◌}
use artifact_controller.Prelude.Maps.{insert}
use artifact_controller.Prelude.Int.{pos, inc32, second, minute}
use artifact_controller.Prelude.Result.{Error, Result, ok, err, is_already_exists}
use artifact_controller.Api.Json.{Object}
use artifact_controller.Api.Conditions.{ConditionType, Reason, State}
use artifact_controller.Api.Artifact.{GeneratorReference}
use artifact_controller.Api.ArtifactClass.{GeneratorSpec}
use artifact_controller.Toolkit.{Toolkit, Input, Arg, GroupVersionKind}
use artifact_controller.Calls.{Call, EventType}
use artifact_controller.Hash.{short}
use artifact_controller.Generator.Render.{render_template}
use artifact_controller.Controller.Session.{
  Cluster, Session, Outcome, requeue, done, fail, call, emit, set_status, mark_false, mark_unknown,
  mark_stalled, mark_reconciling,
}
use artifact_controller.Controller.Timing.{jittered}
use artifact_controller.Controller.Run.{generator_ref_for, run_name, ensure_generator_watch}

module _ (k : Toolkit) (c : Cluster) where
  -- A template error stalls the Artifact until a class edit triggers it again.
  abbrev pub template_failed : Error → Session k → Session k × Outcome
  template_failed e s =
      let msg = k.sprintf "%s" (Arg.text e.text ∷ []) in
      done (
        set_status
          (mark_false k ConditionType.ready Reason.template_error msg
            (mark_stalled k Reason.template_error msg s.obj.status))
          s)

  -- The name, namespace and labels that the controller sets on a rendered run.
  unfoldable pub label_run : Input → Session k → Object → Object
  label_run in_ s run =
      let named =
        k.set_namespace s.obj.namespace
          (k.set_name (run_name k s.obj in_.spec_hash in_.attempt) run) in
      k.set_labels
        (insert "artifacts.kargops.dev/spec-hash" (short in_.spec_hash 16)
          (insert "artifacts.kargops.dev/artifact" s.obj.name (k.get_labels named)))
        named

  abbrev no_owner : String → Session k → Session k × Outcome
  no_owner name s = requeue (pos minute) (
      set_status
        (mark_false k ConditionType.ready Reason.generator_failed
          (k.sprintf "generator %q already exists and is not owned by this Artifact"
            (Arg.text name ∷ []))
          s.obj.status)
        s)

  -- A run of this name exists: ours if an earlier status update was lost.
  unfoldable pub adopt : Input → String → Result Object → Session k → Session k × Outcome
  adopt in_ name (err e) s = no_owner name s
  adopt in_ name (ok existing) s =
      if k.is_controlled_by existing s.obj
      then requeue (pos second) (
          set_status
            (record s.obj.status {
              attempts = in_.attempt;
              generator_ref = some (generator_ref_for k existing);
            })
            s)
      else no_owner name s

  unfoldable pub create_refused : Error → Session k → Session k × Outcome
  create_refused e s =
      let s1 =
        emit EventType.warning "GeneratorCreateFailed" (k.sprintf "%s" (Arg.text e.text ∷ [])) s in
      requeue (jittered c s1.trace (pos minute)) (
        set_status
          (mark_false k ConditionType.ready Reason.generator_failed
            (k.sprintf "create generator: %s" (Arg.text e.text ∷ [])) s.obj.status)
          s1)

  unfoldable pub created :
      Input → GroupVersionKind → String → Object → Session k → Session k × Outcome
  created in_ gvk name run s =
      let kind = Arg.text gvk.kind in
      let attempt = Arg.num in_.attempt in
      let st = record s.obj.status {
        attempts = in_.attempt;
        generator_ref = some (generator_ref_for k run);
        generator_succeeded_at = none;
        state = State.generating;
      } in
      let st1 =
        mark_reconciling k Reason.generating
          (k.sprintf "generator %s %q created (attempt %d)" (kind ∷ Arg.text name ∷ attempt ∷ []))
          st in
      let st2 =
        mark_unknown k ConditionType.generator_succeeded Reason.generating
          (k.sprintf "waiting for %s %q" (kind ∷ Arg.text name ∷ [])) st1 in
      let st3 =
        mark_false k ConditionType.ready Reason.generating
          (k.sprintf "producing artifact (attempt %d)" (attempt ∷ [])) st2 in
      let s1 =
        emit EventType.normal "GeneratorCreated"
          (k.sprintf "created %s %q (attempt %d)" (kind ∷ Arg.text name ∷ attempt ∷ []))
          (set_status st3 s) in
      requeue (jittered c s1.trace (pos (30 * second))) s1

  -- r.Create and what follows from its answer.
  unfoldable pub submit_run : Input → Object → Session k → Session k × Outcome
  submit_run in_ run s =
      let name = run_name k s.obj in_.spec_hash in_.attempt in
      let s1 = call (Call.create_run run) s in
      elim (c.create_run s.trace run) [
        | ok run' ↦ created in_ (k.group_version_kind run) name run' s1
        | err e ↦
            if is_already_exists e.kind
            then (let ref : GeneratorReference = record {
              api_version = k.get_api_version run;
              kind = k.get_kind run;
              name = name;
              namespace = s.obj.namespace;
            } in
                adopt in_ name (c.get_run s1.trace ref) (call (Call.get_run ref) s1))
            else create_refused e s1
      ]

  -- createRun
  unfoldable pub create_run : GeneratorSpec → Input → Session k → Session k × Outcome
  create_run g in_ s =
      let in1 : Input = record in_ { attempt = inc32 s.obj.status.attempts } in
      elim (render_template k g.template in1) [
        | err e ↦ template_failed e s
        | ok run ↦ elim (k.set_controller_reference s.obj (label_run in1 s run)) [
          | err e ↦ fail e s
          | ok owned ↦
              submit_run in1 owned (ensure_generator_watch k c (k.group_version_kind owned) s)
        ]
      ]
