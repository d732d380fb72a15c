-- ===== src/Store/Http/State.antt =====
-- The driver value of httpstore and its state: the calls made and the token cache.
use artifact_controller.Prelude.{String, Bool, ◌*◌}
use artifact_controller.Prelude.Int.{ℤ, pos, second}
use artifact_controller.Api.ArtifactClass.{HttpStoreSpec}
use artifact_controller.Web.{Log}
use artifact_controller.Web.Io.{Io}

-- driver; `has_secrets` says that `secrets` is not nil.
pub record HttpDriver : Type 0 where
  pub cfg : HttpStoreSpec
  pub timeout : ℤ
  pub has_secrets : Bool

-- The calls made so far, and tokenCache.
pub record HttpState : Type 0 where
  pub log : Log
  pub token : String
  pub expires_at : ℤ

-- A step that leaves the token cache alone.
abbrev pub outside : {A : Type 0} → Io Log A → Io HttpState A
outside step s = let (answer, log) = step s.log in (answer, record s { log = log })

-- earlyExpiry
abbrev pub early_expiry : ℤ
early_expiry = pos (60 * second)
