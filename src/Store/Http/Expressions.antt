-- ===== src/Store/Http/Expressions.antt =====
-- internal/store/httpstore/eval.go: URL templates, JSON bodies, and CEL over a response.
use artifact_controller.Prelude.{String, Bool, ◌==◌, [], ◌∷◌, if◌then◌else◌}
use artifact_controller.Prelude.Result.{Result, ok, err, errorf, map_error, ◌>>=◌, ◌>>◌}
use artifact_controller.Api.Json.{Value, close}
use artifact_controller.Toolkit.{Toolkit, Arg}
use artifact_controller.Web.{Web, Response, Outcome}

module _ (k : Toolkit) (w : Web) where
  -- renderTemplate
  unfoldable pub render_url : String → String → Result String
  render_url tmpl key = do
    map_error (λ e. k.sprintf "parse url template %q: %w" (Arg.text tmpl ∷ Arg.text e ∷ []))
        (k.parse_template tmpl)
    map_error (λ e. k.sprintf "execute url template %q: %w" (Arg.text tmpl ∷ Arg.text e ∷ []))
        (w.execute_url tmpl key)

  -- A value, and nil for an error.
  abbrev value_or_null : Result Value → Value
  value_or_null (ok v) = v
  value_or_null (err e) = Value.null

  -- parseJSON
  unfoldable pub parse_json : String → Value
  parse_json body = if body == "" then Value.null else value_or_null (w.unmarshal_any body)

  abbrev bound_json : Value → Value
  bound_json Value.null = Value.obj close
  bound_json v = v

  -- activation: an empty map stands for nil.
  unfoldable pub activation : Response → Response
  activation r = record r { json = bound_json r.json }

  -- eval
  unfoldable pub eval : String → Response → Result Outcome
  unfolding activation
  eval expr r = do
    ast ←
        map_error (λ e. k.sprintf "compile %q: %w" (Arg.text expr ∷ Arg.text e ∷ []))
          (w.compile expr)
    prg ←
        map_error (λ e. k.sprintf "program %q: %w" (Arg.text expr ∷ Arg.text e ∷ []))
          (w.program ast)
    map_error (λ e. k.sprintf "evaluate %q: %w" (Arg.text expr ∷ Arg.text e ∷ []))
        (w.eval prg (activation r))

  abbrev as_bool : String → Outcome → Result Bool
  as_bool expr (Outcome.bool b) = ok b
  as_bool expr out = err (
      errorf (
        k.sprintf "expression %q returned %T, want bool"
          (Arg.text expr ∷ Arg.text (w.type_name out) ∷ [])))

  -- evalBool: an empty expression is the fallback.
  unfoldable pub eval_bool : String → Response → (Response → Bool) → Result Bool
  eval_bool expr r fallback = if expr == "" then ok (fallback r) else eval expr r >>= as_bool expr

  abbrev as_string : Result Outcome → String
  as_string (err e) = ""
  as_string (ok (Outcome.text t)) = t
  as_string (ok Outcome.nothing) = ""
  as_string (ok out) = w.format_value out

  -- evalString: the source's error is nil on every path.
  unfoldable pub eval_string : String → Response → String
  eval_string expr r = as_string (eval expr r)
