-- ===== src/Controller/Budget/Starting.antt =====
-- An attempt that is permitted is made.
use artifact_controller.Prelude.{◌+◌, false, ◌≡◌, refl, arith, Option, none, some, subst, sym}
use artifact_controller.Prelude.Int.{ℤ, inc32}
use artifact_controller.Prelude.Result.{ok}
use artifact_controller.Toolkit.{Toolkit, Input}
use artifact_controller.Calls.{Trace}
use artifact_controller.Api.Json.{Object}
use artifact_controller.Api.Conditions.{State}
use artifact_controller.Api.Artifact.{observe_only}
use artifact_controller.Api.ArtifactClass.{ArtifactClass, GeneratorSpec, effective_backoff}
use artifact_controller.Generator.Render.{render_template}
use artifact_controller.Store.{Observation}
use artifact_controller.Controller.Session.{Cluster, Session, Outcome}
use artifact_controller.Controller.Run.{generator_ref_for, run_name, ensure_generator_watch}
use artifact_controller.Controller.Create.{create_run, submit_run, created, label_run}
use artifact_controller.Controller.Missing.{
  reconcile_missing, note_absence, drive_generator, start_attempt, next_attempt,
}
use artifact_controller.Controller.Reconcile.{dispatch}
use artifact_controller.Controller.Budget.Ledger.{created_runs}
use artifact_controller.Controller.Safety.Creation.{MayAttempt, Due}

module _ {k : Toolkit} (c : Cluster) where
  -- One run more was created, and the status refers to it: the attempt is numbered and going on.
  pub record Begun (stored : Object) (s : Session k) (r : Session k × Outcome) : Type 0 where
    pub run : r.0.obj.status.generator_ref ≡ some (generator_ref_for k stored)
    pub attempts : r.0.obj.status.attempts ≡ inc32 s.obj.status.attempts
    pub failures : r.0.obj.status.failed_attempts ≡ s.obj.status.failed_attempts
    pub generating : r.0.obj.status.state ≡ State.generating
    pub one_more : created_runs c r.0.trace ≡ created_runs c s.trace + 1
    pub no_error : r.1.error ≡ none

  abbrev pub attempt_input : Input → Session k → Input
  attempt_input in_ s = record in_ { attempt = inc32 s.obj.status.attempts }

  create_run-Begun :
      (g : GeneratorSpec) (in_ : Input) (s : Session k) (run owned stored : Object)
      → render_template k g.template (attempt_input in_ s) ≡ ok run
      → k.set_controller_reference s.obj (label_run k c (attempt_input in_ s) s run) ≡ ok owned
      → ((tr : Trace) → c.create_run tr owned ≡ ok stored)
      → Begun stored s (create_run k c g in_ s)
  unfolding create_run submit_run created ensure_generator_watch
  create_run-Begun g in_ s run owned stored q o a = grind (arith, q, o, a)

  start_attempt-Due :
      (g : GeneratorSpec) (in_ : Input) (now : ℤ) (next : Option ℤ) (s : Session k)
      → Due now next
      → start_attempt k c g in_ now next s ≡ create_run k c g in_ s
  unfolding start_attempt
  start_attempt-Due g in_ now none s d = refl
  start_attempt-Due g in_ now (some next) s d = ground (arith, d)

  drive_generator-permitted :
      (class : ArtifactClass) (g : GeneratorSpec) (in_ : Input) (now : ℤ) (s : Session k)
      → MayAttempt k c class now s.obj.status
      → drive_generator k c class g in_ now s ≡ create_run k c g in_ s
  unfolding drive_generator
  drive_generator-permitted class g in_ now s m = grind (
    arith,
    m.idle,
    m.within,
    start_attempt-Due g in_ now (next_attempt k c (effective_backoff class) s.obj.status) s m.due,
  )

  -- Where an attempt may be made and the object is absent, the reconciliation is a creation.
  dispatch-permitted :
      (class : ArtifactClass) (g : GeneratorSpec) (in_ : Input) (now : ℤ) (obs : Observation)
      (s : Session k)
      → class.generator ≡ some g
      → observe_only s.obj ≡ false
      → obs.exists ≡ false
      → MayAttempt k c class now (note_absence k c in_ s).obj.status
      → dispatch k c class in_ now obs s ≡ create_run k c g in_ (note_absence k c in_ s)
  unfolding dispatch reconcile_missing
  dispatch-permitted class g in_ now obs s e o x m =
      ground (arith, e, o, x, drive_generator-permitted class g in_ now (note_absence k c in_ s) m)

  note_absence-MayAttempt :
      (class : ArtifactClass) (in_ : Input) (now : ℤ) (s : Session k)
      → MayAttempt k c class now s.obj.status
      → MayAttempt k c class now (note_absence k c in_ s).obj.status
  unfolding note_absence next_attempt
  note_absence-MayAttempt class in_ now s m = record {
    idle = ground (arith, m.idle);
    within = ground (arith, m.within);
    due = ground (arith, m.due);
  }

  note_absence-Begun :
      (in_ : Input) (stored : Object) (s : Session k) (r : Session k × Outcome)
      → Begun stored (note_absence k c in_ s) r
      → Begun stored s r
  unfolding note_absence
  note_absence-Begun in_ stored s r b = ground (arith, b)

  label_run-absence :
      (in_ : Input) (s : Session k) (run : Object)
      → label_run k c (attempt_input in_ (note_absence k c in_ s)) (note_absence k c in_ s) run
        ≡ label_run k c (attempt_input in_ s) s run
  unfolding note_absence label_run run_name
  label_run-absence in_ s run = ground arith

  -- Where the object of a managed Artifact is absent, no run is in flight, the failure budget is not
  -- used up and no backoff is running, the reconciliation makes an attempt: if the class's template
  -- renders and the API server accepts the run, then one run was created, the status refers to it
  -- and counts the attempt, the state is Generating, and there is no error.
  pub dispatch-Begun :
      (class : ArtifactClass) (g : GeneratorSpec) (in_ : Input) (now : ℤ) (obs : Observation)
      (s : Session k) (run owned stored : Object)
      → class.generator ≡ some g
      → observe_only s.obj ≡ false
      → obs.exists ≡ false
      → MayAttempt k c class now s.obj.status
      → render_template k g.template (attempt_input in_ s) ≡ ok run
      → k.set_controller_reference
          (note_absence k c in_ s).obj
          (label_run k c (attempt_input in_ s) s run)
        ≡ ok owned
      → ((tr : Trace) → c.create_run tr owned ≡ ok stored)
      → Begun stored s (dispatch k c class in_ now obs s)
  unfolding note_absence
  dispatch-Begun class g in_ now obs s run owned stored e o x m q w a =
      let t = note_absence k c in_ s in
      let p =
        dispatch-permitted class g in_ now obs s e o x
          (note_absence-MayAttempt class in_ now s m) in
      subst (Begun stored s) (sym p) (
        note_absence-Begun in_ stored s _ (
          create_run-Begun g in_ t run owned stored (ground (arith, q))
            (rw (label_run-absence in_ s run) w) a))
