-- ===== src/Store/Http/Sources.antt =====
-- Where the credentials of the http driver come from: the secret that the class names.
use artifact_controller.Prelude.{
  String, ◌≡◌, ◌≢◌, arith, eq_iff, Option-cases, some, inl, inr, Bool-cases, ◌==◌,
}
use artifact_controller.Prelude.Maps.{Map, lookup}
use artifact_controller.Prelude.Result.{ok}
use artifact_controller.Api.ArtifactClass.{HttpAuthSpec}
use artifact_controller.Toolkit.{Toolkit}
use artifact_controller.Web.{Web, Log}
use artifact_controller.Web.Texts.{trim_newlines}
use artifact_controller.Store.Http.Secrets.{require_key}

-- The value is the secret's entry under the key, which is not empty, without the line ends after it.
pub record Entry (entries : Map String) (key value : String) : Type 0 where
  pub stored : String
  pub under_key : lookup key entries ≡ some stored
  pub present : stored ≢ ""
  pub trimmed : value ≡ trim_newlines stored

-- The entries are what the secret resolver answered for the secret that the class names.
pub record FromSecret (w : Web) (auth : HttpAuthSpec) (entries : Map String) : Type 0 where
  pub name : String
  pub log : Log
  pub named : auth.secret_ref ≡ some name
  pub resolved : w.secret log name ≡ ok entries

pub require_key-Entry :
    (k : Toolkit) (entries : Map String) (key value : String)
    → require_key k entries key ≡ ok value
    → Entry entries key value
unfolding require_key
require_key-Entry k entries key value e = elim (Option-cases (lookup key entries)) [
  | inl n ↦ ground (arith, n, e)
  | inr (v, q) ↦ elim (Bool-cases (v == "")) [
    | inl t ↦ ground (arith, q, t, e)
    | inr n ↦ record {
      stored = v;
      under_key = q;
      present = λ t. ground (arith, n, eq_iff v "", t);
      trimmed = ground (arith, q, n, e);
    }
  ]
]
