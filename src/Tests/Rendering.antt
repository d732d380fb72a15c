-- ===== src/Tests/Rendering.antt =====
-- The theorems on the generator's templates, expressions and names at concrete inputs.
use Prim.Native.String.{len}
use artifact_controller.Prelude.{refl, [], ◌≡◌, ◌≤◌, arith}
use artifact_controller.Prelude.Int.{pos}
use artifact_controller.Api.Json.{Value, Object, close, entry}
use artifact_controller.Generator.Render.{render_template, walk, render_leaf}
use artifact_controller.Generator.Render.Shape.{Rendered, render_template-Rendered}
use artifact_controller.Generator.Evaluator.{build, run_program, eval_bool}
use artifact_controller.Generator.Evaluator.Caching.{
  IsFaithful, nil-IsFaithful, eval_bool-IsFaithful,
}
use artifact_controller.Controller.Run.{run_name}
use artifact_controller.Controller.Run.Bounds.{len-run_name-le}
use artifact_controller.Tests.Fixtures.{artifact, input}
use artifact_controller.Tests.Tools.{toolkit}

abbrev job : Object
job = entry "apiVersion" (Value.text "batch/v1") (entry "kind" (Value.text "Job") close)

render_template-Rendered_example : Rendered toolkit "{}" job
unfolding render_template walk render_leaf
render_template-Rendered_example = render_template-Rendered toolkit "{}" input job refl

eval_bool-IsFaithful_example :
    ((eval_bool toolkit "true" job []).0 ≡ run_program toolkit "true" job (build toolkit "true"))
    × IsFaithful toolkit (eval_bool toolkit "true" job []).1
eval_bool-IsFaithful_example = eval_bool-IsFaithful toolkit "true" job [] (nil-IsFaithful toolkit)

len-run_name-le_example : len (run_name toolkit artifact "sha256:0123456789" (pos 1)) ≤ 63
len-run_name-le_example = len-run_name-le toolkit artifact "sha256:0123456789" (pos 1) (omega arith)
