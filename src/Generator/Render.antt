-- ===== src/Generator/Render.antt =====
-- internal/generator/render.go: templates in the string leaves of a JSON object.
pub mod Shape
use artifact_controller.Prelude.{String, Bool, not, ◌||◌, List, [], ◌∷◌, ◌==◌, if◌then◌else◌}
use artifact_controller.Prelude.Result.{Result, ok, err, errorf, map_error, ◌>>=◌, ◌>>◌, guard}
use artifact_controller.Api.Json.{
  Value, Elements, Members, Object, null, bool, int64, float64, text, arr, obj, stop, item, close,
  entry,
}
use artifact_controller.Toolkit.{Toolkit, Input, Arg}

module _ (k : Toolkit) where
  -- renderString: parse, then execute; each error names the template.
  unfoldable pub render_string : String → Input → Result String
  render_string tmpl in_ = do
    map_error (λ e. k.sprintf "parse template %q: %w" (Arg.text tmpl ∷ Arg.text e ∷ []))
        (k.parse_template tmpl)
    map_error (λ e. k.sprintf "execute template %q: %w" (Arg.text tmpl ∷ Arg.text e ∷ []))
        (k.execute_template tmpl in_)

  -- RenderKey: a key of white space is refused.
  unfoldable pub render_key : String → Input → Result String
  render_key tmpl in_ = do
    out ←
        map_error (λ e. k.sprintf "render key template: %w" (Arg.text e ∷ []))
          (render_string tmpl in_)
    guard (not (k.trim_space out == "")) (errorf "key template rendered to an empty key")
    ok out

  -- The string case of walk: text without an action is left alone.
  unfoldable pub render_leaf : String → Input → Result String
  render_leaf t in_ = if not (k.contains t "{{") then ok t else render_string t in_

  -- walk
  unfoldable mutual
    pub walk : Value → Input → Result Value
    walk null in_ = ok null
    walk (bool b) in_ = ok (bool b)
    walk (int64 i) in_ = ok (int64 i)
    walk (float64 f) in_ = ok (float64 f)
    walk (text t) in_ = render_leaf t in_ >>= λ s. ok (text s)
    walk (arr xs) in_ = walk_elements xs in_ >>= λ ys. ok (arr ys)
    walk (obj o) in_ = walk_members o in_ >>= λ r. ok (obj r)

    pub walk_elements : Elements → Input → Result Elements
    walk_elements stop in_ = ok stop
    walk_elements (item x xs) in_ =
        walk x in_ >>= λ y. walk_elements xs in_ >>= λ ys. ok (item y ys)

    pub walk_members : Members → Input → Result Members
    walk_members close in_ = ok close
    walk_members (entry j x o) in_ =
        walk x in_ >>= λ y. walk_members o in_ >>= λ r. ok (entry j y r)

  -- RenderTemplate
  unfoldable pub render_template : String → Input → Result Object
  render_template raw in_ = do
    guard (not (raw == "")) (errorf "generator template is empty")
    o ←
        map_error (λ e. k.sprintf "generator template is not a valid object: %w" (Arg.text e ∷ []))
          (k.unmarshal_object raw)
    u ← walk_members o in_
    guard (not (k.get_api_version u == "" || k.get_kind u == ""))
        (errorf "generator template must set apiVersion and kind")
    ok u
