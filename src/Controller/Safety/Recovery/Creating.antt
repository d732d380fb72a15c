-- ===== src/Controller/Safety/Recovery/Creating.antt =====
-- A status update that was lost after a run was created: the next request finds the run.
use artifact_controller.Prelude.{
  true, ◌≡◌, ◌≢◌, ◌⊎◌, subst, sym, ◌∙◌, refl, arith, some, ◌∷◌, ◌++◌, All, inl, inr,
}
use artifact_controller.Prelude.Result.{ok}
use artifact_controller.Prelude.Result.Bind.{Result-cases}
use artifact_controller.Prelude.Int.{inc32}
use artifact_controller.Toolkit.{Toolkit, Input}
use artifact_controller.Calls.{Call, Trace}
use artifact_controller.Api.Json.{Object}
use artifact_controller.Api.ArtifactClass.{GeneratorSpec}
use artifact_controller.Generator.Render.{render_template}
use artifact_controller.Controller.Session.{Cluster, Session, call}
use artifact_controller.Controller.Run.{generator_ref_for, run_name, ensure_generator_watch}
use artifact_controller.Controller.Create.{
  create_run, submit_run, adopt, create_refused, created, label_run,
}
use artifact_controller.Controller.Budget.Ledger.{created_runs}
use artifact_controller.Controller.Safety.Recovery.{
  KeepsRuns, Stands, accepted, since, ObjectLaws, RunLaws, Stands-append,
}

module _ {k : Toolkit} (ol : ObjectLaws k) (c : Cluster) (rl : RunLaws k c) where
  -- A second submission of a run that stands takes the run over.
  pub record Recovered (in_ : Input) (stored : Object) (s r : Session k) : Type 0 where
    pub run : r.obj.status.generator_ref ≡ some (generator_ref_for k stored)
    pub attempts : r.obj.status.attempts ≡ in_.attempt
    pub creates : created_runs c r.trace ≡ created_runs c s.trace

  submit_run-Recovered :
      (in_ : Input) (run stored : Object) (s : Session k)
      → k.get_name run ≡ run_name k s.obj in_.spec_hash in_.attempt
      → k.get_namespace run ≡ s.obj.namespace
      → k.is_controlled_by stored s.obj ≡ true
      → Stands c run stored s.trace
      → Recovered in_ stored s (submit_run k c in_ run s).0
  unfolding submit_run adopt generator_ref_for
  submit_run-Recovered in_ run stored s n ns o x =
      let (e, q, a) = rl.name-taken s.trace run stored x in
      let (found, f, same, owner) =
        rl.run-found (Call.create_run run ∷ s.trace) run stored
          (since (Call.create_run run) tt x) in
      ground (arith, q, a, f, same, owner s.obj, n, ns, o)

  -- The template data of the attempt that the Artifact is due.
  abbrev attempt_input : Input → Session k → Input
  attempt_input in_ s = record in_ { attempt = inc32 s.obj.status.attempts }

  abbrev watching : Object → Session k → Session k
  watching owned s = ensure_generator_watch k c (k.group_version_kind owned) s

  watching-kept :
      (owned : Object) (s : Session k)
      → ((watching owned s).obj ≡ s.obj)
        × (created_runs c (watching owned s).trace ≡ created_runs c s.trace)
        × (((watching owned s).trace ≡ s.trace)
            ⊎ ((watching owned s).trace ≡ Call.watch (k.group_version_kind owned) ∷ s.trace))
  unfolding ensure_generator_watch
  watching-kept owned s = ground arith

  -- A request that creates a run: what it rendered, and what the API server stored.
  record Creation (g : GeneratorSpec) (in_ : Input) (s : Session k) : Type 0 where
    run : Object
    owned : Object
    stored : Object
    rendered : render_template k g.template (attempt_input in_ s) ≡ ok run
    owner : k.set_controller_reference s.obj (label_run k c (attempt_input in_ s) s run) ≡ ok owned
    answer : c.create_run (watching owned s).trace owned ≡ ok stored

  create_run-Creation :
      (g : GeneratorSpec) (in_ : Input) (s : Session k)
      → created_runs c (create_run k c g in_ s).0.trace ≢ created_runs c s.trace
      → Creation g in_ s
  unfolding create_run submit_run adopt create_refused created
  create_run-Creation g in_ s h =
      elim (Result-cases (render_template k g.template (attempt_input in_ s))) [
        | inr (e, q) ↦ absurd (h (ground (arith, q)))
        | inl (run, q) ↦
            elim (Result-cases
              (k.set_controller_reference s.obj (label_run k c (attempt_input in_ s) s run))) [
                | inr (e, o) ↦ absurd (h (ground (arith, q, o)))
                | inl (owned, o) ↦
                    elim (Result-cases (c.create_run (watching owned s).trace owned)) [
                      | inr (e, a) ↦ absurd (h (ground (arith, q, o, a, watching-kept owned s)))
                      | inl (stored, a) ↦ record {
                        run = run;
                        owned = owned;
                        stored = stored;
                        rendered = q;
                        owner = o;
                        answer = a;
                      }
                    ]
              ]
      ]

  -- The run stands after the request that created it, with what the status says of it.
  record Created (g : GeneratorSpec) (in_ : Input) (s : Session k) (x : Creation g in_ s)
      : Type 0 where
    stands : Stands c x.owned x.stored (create_run k c g in_ s).0.trace
    run_is :
        (create_run k c g in_ s).0.obj.status.generator_ref ≡ some (generator_ref_for k x.stored)
    attempts : (create_run k c g in_ s).0.obj.status.attempts ≡ inc32 s.obj.status.attempts

  -- The end of the request that creates a run.
  abbrev ending : (g : GeneratorSpec) (in_ : Input) (s : Session k) → Creation g in_ s → Session k
  ending g in_ s x =
      (created k c (attempt_input in_ s) (k.group_version_kind x.owned)
        (run_name k s.obj in_.spec_hash (inc32 s.obj.status.attempts)) x.stored
        (call (Call.create_run x.owned) (watching x.owned s))).0

  create_run-ending :
      (g : GeneratorSpec) (in_ : Input) (s : Session k) (x : Creation g in_ s)
      → (create_run k c g in_ s).0 ≡ ending g in_ s x
  unfolding create_run submit_run
  create_run-ending g in_ s x =
      ground (arith, x.rendered, x.owner, x.answer, watching-kept x.owned s)

  Creation-Created :
      (g : GeneratorSpec) (in_ : Input) (s : Session k) (x : Creation g in_ s) → Created g in_ s x
  unfolding created
  Creation-Created g in_ s x =
      let e = create_run-ending g in_ s x in
      record {
        stands =
            subst (λ (r : Session k). Stands c x.owned x.stored r.trace) (sym e)
              (since _ tt (accepted x.answer));
        run_is = rw e refl;
        attempts = rw e refl;
      }

  watching-Stands :
      (owned run stored : Object) (s : Session k)
      → Stands c run stored s.trace
      → Stands c run stored (watching owned s).trace
  watching-Stands owned run stored s x = elim (watching-kept owned s).2 [
    | inl e ↦ subst (Stands c run stored) (sym e) x
    | inr e ↦ subst (Stands c run stored) (sym e) (since _ tt x)
  ]

  -- The next request with the same Artifact submits the same run.
  again :
      (g : GeneratorSpec) (in_ : Input) (s t : Session k) (x : Creation g in_ s)
      → t.obj ≡ s.obj
      → (create_run k c g in_ t).0
        ≡ (submit_run k c (attempt_input in_ s) x.owned (watching x.owned t)).0
  unfolding create_run label_run
  again g in_ s t x e = ground (arith, e, x.rendered, x.owner)

  label_run-names :
      (in_ : Input) (s : Session k) (run : Object)
      → (k.get_name (label_run k c in_ s run) ≡ run_name k s.obj in_.spec_hash in_.attempt)
        × (k.get_namespace (label_run k c in_ s run) ≡ s.obj.namespace)
  unfolding label_run
  label_run-names in_ s run = ol.name-set run _ _ _

  -- An attempt created a run, and its status update was lost. A later attempt for the same Artifact
  -- with the same generator template and the same template data (the class was not edited), with no
  -- run deleted in between, creates no second run. It takes the first run over, with the reference
  -- and the number of the attempt that the lost update had, whatever became of the run otherwise.
  pub create_run-recovers :
      (g : GeneratorSpec) (in_ : Input) (s t : Session k) (later : Trace)
      → created_runs c (create_run k c g in_ s).0.trace ≢ created_runs c s.trace
      → t.obj ≡ s.obj
      → t.trace ≡ later ++ (create_run k c g in_ s).0.trace
      → All KeepsRuns later
      → let first = (create_run k c g in_ s).0 in
        let second = (create_run k c g in_ t).0 in
        (created_runs c second.trace ≡ created_runs c t.trace)
        × (second.obj.status.generator_ref ≡ first.obj.status.generator_ref)
        × (second.obj.status.attempts ≡ first.obj.status.attempts)
  create_run-recovers g in_ s t later made o read kept =
      let x = create_run-Creation g in_ s made in
      let y = Creation-Created g in_ s x in
      let z = Stands-append later kept y.stands in
      let w = watching-kept x.owned t in
      let (n, ns) = label_run-names (attempt_input in_ s) s x.run in
      let (n', ns', ow) = ol.owner-kept s.obj _ x.owned x.owner in
      let r =
        submit_run-Recovered (attempt_input in_ s) x.owned x.stored (watching x.owned t)
          (ground (arith, n, n', w, o)) (ground (arith, ns, ns', w, o))
          (ground (arith, w, o, ow, rl.owner-stored _ x.owned x.stored s.obj x.answer))
          (watching-Stands x.owned x.owned x.stored t
            (subst (Stands c x.owned x.stored) (sym read) z)) in
      rw (again g in_ s t x o) (r.creates ∙ w.1, r.run ∙ sym y.run_is, r.attempts ∙ sym y.attempts)
