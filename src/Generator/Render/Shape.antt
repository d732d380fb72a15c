-- ===== src/Generator/Render/Shape.antt =====
-- Rendering a generator template changes string leaves only.
use artifact_controller.Prelude.{String, ◌≡◌, ◌≢◌, arith, eq_iff, inl, inr}
use artifact_controller.Prelude.Result.{ok, ◌>>=◌}
use artifact_controller.Prelude.Result.Bind.{>>=-eq-ok, Result-cases}
use artifact_controller.Api.Json.{
  Value, Object, Elements, Members, null, bool, int64, float64, text, arr, obj, stop, item, close,
  entry,
}
use artifact_controller.Toolkit.{Toolkit, Input}
use artifact_controller.Generator.Render.{walk, walk_elements, walk_members, render_template}

-- A value with every string leaf blanked: its keys, its nesting and its other scalars.
mutual
  pub shape : Value → Value
  shape null = null
  shape (bool b) = bool b
  shape (int64 i) = int64 i
  shape (float64 f) = float64 f
  shape (text t) = text ""
  shape (arr xs) = arr (shape_elements xs)
  shape (obj o) = obj (shape_members o)

  pub shape_elements : Elements → Elements
  shape_elements stop = stop
  shape_elements (item x xs) = item (shape x) (shape_elements xs)

  pub shape_members : Members → Members
  shape_members close = close
  shape_members (entry j x o) = entry j (shape x) (shape_members o)

module _ (k : Toolkit) (in_ : Input) where
  mutual
    unfolding walk shape

    shape-walk_value : (v w : Value) → walk k v in_ ≡ ok w → shape w ≡ shape v
    shape-walk_value null w h = ground arith
    shape-walk_value (bool b) w h = ground arith
    shape-walk_value (int64 i) w h = ground arith
    shape-walk_value (float64 f) w h = ground arith
    shape-walk_value (text t) w h = ground arith
    shape-walk_value (arr xs) w h =
        let (ys, e, f) = >>=-eq-ok (walk_elements k xs in_) (λ ys. ok (arr ys)) h in
        ground (arith, shape-walk_elements xs ys e)
    shape-walk_value (obj o) w h =
        let (r, e, f) = >>=-eq-ok (walk_members k o in_) (λ r. ok (obj r)) h in
        ground (arith, shape-walk_members o r e)

    shape-walk_elements :
        (xs ys : Elements) → walk_elements k xs in_ ≡ ok ys → shape_elements ys ≡ shape_elements xs
    shape-walk_elements stop ys h = ground arith
    shape-walk_elements (item x xs) ys h =
        let (y, e, h') =
          >>=-eq-ok (walk k x in_) (λ y. walk_elements k xs in_ >>= λ zs. ok (item y zs)) h in
        let (zs, f, g) = >>=-eq-ok (walk_elements k xs in_) (λ zs. ok (item y zs)) h' in
        ground (arith, shape-walk_value x y e, shape-walk_elements xs zs f)

    shape-walk_members :
        (o r : Members) → walk_members k o in_ ≡ ok r → shape_members r ≡ shape_members o
    shape-walk_members close r h = ground arith
    shape-walk_members (entry j x o) r h =
        let (y, e, h') =
          >>=-eq-ok (walk k x in_) (λ y. walk_members k o in_ >>= λ q. ok (entry j y q)) h in
        let (q, f, g) = >>=-eq-ok (walk_members k o in_) (λ q. ok (entry j y q)) h' in
        ground (arith, shape-walk_value x y e, shape-walk_members o q f)

module _ (k : Toolkit) where
  -- What a rendered generator template is: the template's object with other string leaves, which
  -- sets apiVersion and kind.
  pub record Rendered (raw : String) (u : Object) : Type 0 where
    pub source : Object
    pub parsed : k.unmarshal_object raw ≡ ok source
    pub same_shape : shape_members u ≡ shape_members source
    pub api_version_set : k.get_api_version u ≢ ""
    pub kind_set : k.get_kind u ≢ ""

  -- A generator template that renders gives an object of the template's shape, with apiVersion and
  -- kind: rendering changes string leaves only.
  pub render_template-Rendered :
      (raw : String) (in_ : Input) (u : Object) → render_template k raw in_ ≡ ok u → Rendered raw u
  unfolding render_template
  render_template-Rendered raw in_ u h = elim (Result-cases (k.unmarshal_object raw)) [
    | inl (o, e) ↦ record {
      source = o;
      parsed = e;
      same_shape = grind (arith, shape-walk_members k in_ o u);
      api_version_set = grind (arith, eq_iff (k.get_api_version u) "");
      kind_set = grind (arith, eq_iff (k.get_kind u) "");
    }
    | inr (x, e) ↦ ground arith
  ]
