-- ===== src/Generator/Evaluator/Caching.antt =====
-- The cache of compiled programs does not show: with a cache that holds only what compilation
-- gives, an evaluation has the result that it has with an empty one, and leaves such a cache.
use artifact_controller.Prelude.{
  String, some, [], ◌≡◌, refl, sym, ap, inl, inr, arith, eq_iff, Option-cases,
}
use artifact_controller.Prelude.Maps.{lookup, insert, lookup-insert}
use artifact_controller.Prelude.Result.{Result, ok, err}
use artifact_controller.Api.Json.{Object}
use artifact_controller.Toolkit.{Toolkit}
use artifact_controller.Generator.Evaluator.{
  Cache, remember, build, program, run_program, eval_bool,
}

module _ (k : Toolkit) where
  -- Every cached program is what its expression compiles to.
  pub record IsFaithful (progs : Cache k) : Type 0 where
    pub at : (expr : String) (p : k.Program) → lookup expr progs ≡ some p → build k expr ≡ ok p

  insert-IsFaithful :
      (expr : String) (p : k.Program) (progs : Cache k)
      → build k expr ≡ ok p
      → IsFaithful progs
      → IsFaithful (insert expr p progs)
  insert-IsFaithful expr p progs e f = record {
    at = λ j q. rw (lookup-insert expr j p progs) (ground (arith, eq_iff expr j, f.at j q));
  }

  remember-build :
      (expr : String) (progs : Cache k) (r : Result k.Program)
      → build k expr ≡ r
      → IsFaithful progs
      → ((remember k expr progs r).0 ≡ build k expr) × IsFaithful (remember k expr progs r).1
  remember-build expr progs (ok p) e f = (sym e, insert-IsFaithful expr p progs e f)
  remember-build expr progs (err x) e f = (sym e, f)

  program-build :
      (expr : String) (progs : Cache k)
      → IsFaithful progs
      → ((program k expr progs).0 ≡ build k expr) × IsFaithful (program k expr progs).1
  unfolding program
  program-build expr progs f = elim (Option-cases (lookup expr progs)) [
    | inr (p, e) ↦ rw (e, program) (sym (f.at expr p e), f)
    | inl e ↦ rw (e, program) (remember-build expr progs (build k expr) refl f)
  ]

  -- An evaluation with a faithful cache has the result that compiling anew gives, and leaves a
  -- faithful cache.
  pub eval_bool-IsFaithful :
      (expr : String) (object : Object) (progs : Cache k)
      → IsFaithful progs
      → ((eval_bool k expr object progs).0 ≡ run_program k expr object (build k expr))
        × IsFaithful (eval_bool k expr object progs).1
  unfolding eval_bool
  eval_bool-IsFaithful expr object progs f =
      let (e, f') = program-build expr progs f in (ap (run_program k expr object) e, f')

  pub nil-IsFaithful : IsFaithful []
  unfolding lookup
  nil-IsFaithful = record { at = λ expr p e. cc }
