-- ===== src/Web/Signing.antt =====
-- internal/awsauth/sign.go: SigV4 with the controller's ambient AWS identity.
use artifact_controller.Prelude.{String, none, some, ◌==◌, [], ◌∷◌, if◌then◌else◌}
use artifact_controller.Prelude.Result.{Result, ok, errorf, map_error}
use artifact_controller.Toolkit.{Toolkit, Arg}
use artifact_controller.Web.{Web, WebRequest, Event, Log}
use artifact_controller.Web.Io.{Io, ◌>>=◌, raise, lift, call}

abbrev pub empty_body_sha256 : String
empty_body_sha256 = "e3b0c44298fc1c149afbf4c8996fb92427ae41e4649b934ca495991b7852b855"

module _ (k : Toolkit) (w : Web) where
  -- The hash of the body, which is read and put back; a body in memory reads without an error.
  unfoldable pub payload_hash : WebRequest → String
  payload_hash request = elim request.body [
    | none ↦ empty_body_sha256
    | some body ↦ k.sha256_hex body
  ]

  -- fmt.Errorf(format, err)
  abbrev wrap {ℓ} : {A : Type ℓ} → String → Result A → Result A
  wrap format = map_error (λ e. k.sprintf format (Arg.text e ∷ []))

  -- The part of Sign behind the two checks.
  unfoldable pub sign_checked : WebRequest → String → String → Io Log WebRequest
  unfolding payload_hash
  sign_checked request region service = do
    cfg ←
        call (Event.aws_config region)
          (λ log. wrap "load aws config: %w" (w.load_aws_config log region))
    creds ←
        call Event.aws_credentials (λ log. wrap "retrieve aws credentials: %w" (w.retrieve log cfg))
    now ← call Event.clock (λ log. ok (w.now log))
    lift (
        wrap "sign request: %w"
          (w.sign_http creds request (payload_hash request) service region now))

  -- Sign
  unfoldable pub sign : WebRequest → String → String → Io Log WebRequest
  sign request region service =
      if region == ""
      then raise (errorf "sigv4 needs a region")
      else if service == ""
      then raise (errorf "sigv4 needs a service name")
      else sign_checked request region service
