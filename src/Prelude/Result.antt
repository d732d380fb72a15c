-- ===== src/Prelude/Result.antt =====
-- Go's (value, error) results. An error keeps what the error predicates of the API machinery read.
pub mod Bind
use artifact_controller.Prelude.Tests.{if◌then◌else◌}
use Prim.Native.String.{String}
use mathlib.Core.Bool.{Bool, true, false}

pub data ErrorKind : Type 0 where
  not_found already_exists other : ErrorKind

pub record Error : Type 0 where
  pub kind : ErrorKind
  pub text : String

-- fmt.Errorf with no wrapped error
abbrev pub errorf : String → Error
errorf text = record { kind = ErrorKind.other; text = text }

-- apierrors.IsNotFound, apierrors.IsAlreadyExists
abbrev pub is_not_found : ErrorKind → Bool
is_not_found ErrorKind.not_found = true
is_not_found _ = false

abbrev pub is_already_exists : ErrorKind → Bool
is_already_exists ErrorKind.already_exists = true
is_already_exists _ = false

pub data Result {ℓ} (V : Type ℓ) : Type ℓ where
  err : Error → Result V
  ok : V → Result V

-- if err != nil { return …, err }
infixl 5 ◌>>=◌ ◌>>◌
abbrev pub ◌>>=◌ {ℓ κ} : {V : Type ℓ} {W : Type κ} → Result V → (V → Result W) → Result W
◌>>=◌ (err failure) next = err failure
◌>>=◌ (ok value) next = next value

abbrev pub ◌>>◌ {ℓ} : {W : Type ℓ} → Result (Unit {0}) → Result W → Result W
◌>>◌ check next = check >>= λ done. next

-- if !test { return …, failure }
abbrev pub guard : Bool → Error → Result (Unit {0})
guard test failure = if test then ok tt else err failure

-- Every error of a result passed through `fmt.Errorf("…: %w", err)`, which keeps its kind.
abbrev pub map_error {ℓ} : {V : Type ℓ} → (String → String) → Result V → Result V
map_error wrap (ok value) = ok value
map_error wrap (err failure) = err (record failure { text = wrap failure.text })
