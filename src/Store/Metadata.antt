-- ===== src/Store/Metadata.antt =====
-- The loop with which the drivers publish names in lower case: md[strings.ToLower(k)] = v.
pub mod Order
use artifact_controller.Prelude.{String, [], ◌∷◌}
use artifact_controller.Prelude.Maps.{Map, insert}

unfoldable pub publish : (String → String) → Map String → Map String → Map String
publish to_lower [] md = md
publish to_lower (e ∷ rest) md = publish to_lower rest (insert (to_lower e.0) e.1 md)
