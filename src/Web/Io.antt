-- ===== src/Web/Io.antt =====
-- Fallible steps that pass a state along.
use artifact_controller.Prelude.{◌∷◌}
use artifact_controller.Prelude.Result.{Error, Result, ok, err}
use artifact_controller.Web.{Event, Log}

abbrev pub Io : Type 0 → Type 0 → Type 0
Io S A = S → Result A × S

infixl 5 ◌>>=◌ ◌>>◌
abbrev pub ◌>>=◌ : {S A B : Type 0} → Io S A → (A → Io S B) → Io S B
◌>>=◌ step next s =
    let (answer, after) = step s in
    elim answer [ err failure ↦ (err failure, after) | ok value ↦ next value after ]

abbrev pub ◌>>◌ : {S A B : Type 0} → Io S A → Io S B → Io S B
step >> rest = step >>= λ value. rest

abbrev pub pure : {S A : Type 0} → A → Io S A
pure value s = (ok value, s)

abbrev pub raise : {S A : Type 0} → Error → Io S A
raise failure s = (err failure, s)

-- A result that takes no call.
abbrev pub lift : {S A : Type 0} → Result A → Io S A
lift answer s = (answer, s)

-- A call of the world outside, whose answer depends on the calls before it.
abbrev pub call : {A : Type 0} → Event → (Log → Result A) → Io Log A
call event answer log = (answer log, event ∷ log)
