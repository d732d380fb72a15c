-- ===== src/Store/Http/Secrets.antt =====
-- The keys of credential secrets: keyOr and requireKey of auth.go.
use artifact_controller.Prelude.{String, ◌==◌, none, some, [], ◌∷◌, if◌then◌else◌}
use artifact_controller.Prelude.Maps.{Map, lookup}
use artifact_controller.Prelude.Result.{Result, ok, err, errorf}
use artifact_controller.Toolkit.{Toolkit, Arg}
use artifact_controller.Web.Texts.{trim_newlines}

-- keyOr
abbrev pub key_or : String → String → String
key_or v fallback = if v == "" then fallback else v

-- requireKey: an empty value counts as missing; line ends after the value go.
unfoldable pub require_key : Toolkit → Map String → String → Result String
require_key k entries key = elim (lookup key entries) [
  | none ↦ missing
  | some v ↦ if v == "" then missing else ok (trim_newlines v)
]
  where
    missing : Result String
    missing = err (errorf (k.sprintf "secret has no non-empty key %q" (Arg.text key ∷ [])))
