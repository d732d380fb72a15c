-- ===== src/Generator/Evaluator.antt =====
-- internal/generator/eval.go: CEL status expressions, with a cache of compiled programs.
pub mod Caching
use artifact_controller.Prelude.{String, Bool, Option, none, some, List, [], ◌∷◌}
use artifact_controller.Prelude.Maps.{lookup, insert}
use artifact_controller.Prelude.Result.{Result, ok, err, errorf, map_error, ◌>>=◌}
use artifact_controller.Api.Json.{Value, Object, Members, close, get_member}
use artifact_controller.Toolkit.{Toolkit, CelValue, Arg}

-- object["status"].(map[string]interface{}), and an empty map for anything else
abbrev as_map : Option Value → Members
as_map (some (Value.obj o)) = o
as_map _ = close

unfoldable pub status_of : Object → Members
unfolding get_member
status_of object = as_map (get_member "status" object)

module _ (k : Toolkit) where
  abbrev pub Cache : Type 0
  Cache = List (String × k.Program)

  -- NewEvaluator, with the answer of cel.NewEnv: an empty cache.
  unfoldable pub new_evaluator : Result (Unit {0}) → Result Cache
  new_evaluator new_env = do
    env ← map_error (λ e. k.sprintf "create CEL env: %w" (Arg.text e ∷ [])) new_env
    ok []

  -- The compilation that a cache miss runs.
  unfoldable pub build : String → Result k.Program
  build expr = do
    ast ←
        map_error (λ e. k.sprintf "compile %q: %w" (Arg.text expr ∷ Arg.text e ∷ []))
          (k.compile expr)
    map_error (λ e. k.sprintf "program %q: %w" (Arg.text expr ∷ Arg.text e ∷ [])) (k.program ast)

  abbrev pub remember : String → Cache → Result k.Program → Result k.Program × Cache
  remember expr progs (ok prg) = (ok prg, insert expr prg progs)
  remember expr progs (err e) = (err e, progs)

  -- program: a hit returns the cached program, a miss compiles; only a success is cached.
  unfoldable pub program : String → Cache → Result k.Program × Cache
  program expr progs = elim (lookup expr progs) [
    | some p ↦ (ok p, progs)
    | none ↦ remember expr progs (build expr)
  ]

  abbrev as_bool : String → CelValue → Result Bool
  as_bool expr (CelValue.bool b) = ok b
  as_bool expr (CelValue.other t) =
      err (
        errorf (k.sprintf "expression %q returned %T, want bool" (Arg.text expr ∷ Arg.text t ∷ [])))

  -- The part of EvalBool after the program is at hand.
  unfoldable pub run_program : String → Object → Result k.Program → Result Bool
  unfolding status_of
  run_program expr object prg = do
    p ← prg
    out ←
        map_error (λ e. k.sprintf "evaluate %q: %w" (Arg.text expr ∷ Arg.text e ∷ []))
          (k.eval p object (status_of object))
    as_bool expr out

  -- EvalBool
  unfoldable pub eval_bool : String → Object → Cache → Result Bool × Cache
  unfolding program run_program
  eval_bool expr object progs =
      let (prg, progs') = program expr progs in (run_program expr object prg, progs')
