-- ===== src/Api/Json.antt =====
-- interface{} values as encoding/json and the API server's unstructured objects give them.
use artifact_controller.Prelude.{
  ℕ, String, Bool, Option, none, some, List, [], ◌∷◌, ◌==◌, if◌then◌else◌,
}
use artifact_controller.Prelude.Int.{ℤ}

mutual
  -- map[string]interface{}, in some order of its keys
  pub data Members : Type 0 where
    close : Members
    entry : String → Value → Members → Members

  -- []interface{}
  pub data Elements : Type 0 where
    stop : Elements
    item : Value → Elements → Elements

  pub data Value : Type 0 where
    obj : Members → Value
    arr : Elements → Value
    text : String → Value
    bool : Bool → Value
    int64 : ℤ → Value
    -- the bits of a float64
    float64 : ℕ → Value
    null : Value

-- Object of unstructured.Unstructured
abbrev pub Object : Type 0
Object = Members

-- v, ok := o[name]
unfoldable pub get_member : String → Members → Option Value
get_member name close = none
get_member name (entry other v rest) = if other == name then some v else get_member name rest

-- for name := range o
unfoldable pub keys : Members → List String
keys close = []
keys (entry name v rest) = name ∷ keys rest
