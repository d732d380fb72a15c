-- ===== src/Prelude/Int.antt =====
-- Signed integers over the native numbers: Go's int32, int64 and time.Duration, with wrap-around.
use Prim.Native.Nat.{ℕ, suc, ◌+◌, ◌-◌, ◌*◌, ◌%◌, ◌^◌, ◌≤◌}
use mathlib.Core.Path.{◌≡◌}
use mathlib.Core.Bool.{Bool}
use native.Mathlib.Omega.{arith}
use artifact_controller.Prelude.Tests.{ltb, leb, if◌then◌else◌}

-- `negsuc n` is -(n + 1).
pub data ℤ : Type 0 where
  pos : ℕ → ℤ
  negsuc : ℕ → ℤ

abbrev pub pos_part : ℤ → ℕ
pos_part (pos n) = n
pos_part (negsuc n) = 0

abbrev pub neg_part : ℤ → ℕ
neg_part (pos n) = 0
neg_part (negsuc n) = suc n

-- a - b, as an integer.
abbrev pub sub_ℕ : ℕ → ℕ → ℤ
sub_ℕ a b = if leb b a then pos (a - b) else negsuc (b - a - 1)

infixl 65 ◌+ℤ◌ ◌-ℤ◌
infix 50 ◌≤ℤ◌ ◌<ℤ◌
unfoldable pub ◌+ℤ◌ : ℤ → ℤ → ℤ
a +ℤ b = sub_ℕ (pos_part a + pos_part b) (neg_part a + neg_part b)

unfoldable pub ◌-ℤ◌ : ℤ → ℤ → ℤ
a -ℤ b = sub_ℕ (pos_part a + neg_part b) (neg_part a + pos_part b)

abbrev pub ◌≤ℤ◌ : ℤ → ℤ → Type 0
a ≤ℤ b = pos_part a + neg_part b ≤ pos_part b + neg_part a

abbrev pub ◌<ℤ◌ : ℤ → ℤ → Type 0
a <ℤ b = suc (pos_part a + neg_part b) ≤ pos_part b + neg_part a

abbrev pub ltb_ℤ : ℤ → ℤ → Bool
ltb_ℤ a b = ltb (pos_part a + neg_part b) (pos_part b + neg_part a)

abbrev pub leb_ℤ : ℤ → ℤ → Bool
leb_ℤ a b = leb (pos_part a + neg_part b) (pos_part b + neg_part a)

pub ltb_ℤ→lt : (a b : ℤ) → ltb_ℤ a b ≡ Bool.true → a <ℤ b
ltb_ℤ→lt a b h = ground arith

-- A pattern of 2 * half bits values, read in two's complement.
abbrev signed : ℕ → ℕ → ℤ
signed half u = if ltb u half then pos u else negsuc (half + half - 1 - u)

-- The value that a signed integer type with the range [-half, half) keeps of an exact result.
wrap : ℕ → ℤ → ℤ
wrap half (pos n) = signed half (n % (half + half))
wrap half (negsuc n) = signed half (half + half - 1 - n % (half + half))

abbrev half64 : ℕ
half64 = 2 ^ 63

abbrev half32 : ℕ
half32 = 2 ^ 31

unfoldable pub wrap64 : ℤ → ℤ
unfolding wrap
wrap64 = wrap half64

unfoldable pub wrap32 : ℤ → ℤ
unfolding wrap
wrap32 = wrap half32

abbrev pub Fits64 : ℤ → Type 0
Fits64 a = (pos_part a ≤ 9223372036854775807) × (neg_part a ≤ 9223372036854775808)

abbrev pub Fits32 : ℤ → Type 0
Fits32 a = (pos_part a ≤ 2147483647) × (neg_part a ≤ 2147483648)

-- An exact result in the range is kept.
pub wrap64_fits : (a : ℤ) → Fits64 a → wrap64 a ≡ a
unfolding wrap64
wrap64_fits (pos n) h = ground arith
wrap64_fits (negsuc n) h = ground arith

pub wrap32_fits : (a : ℤ) → Fits32 a → wrap32 a ≡ a
unfolding wrap32
wrap32_fits (pos n) h = ground arith
wrap32_fits (negsuc n) h = ground arith

pub wrap64-Fits64 : (a : ℤ) → Fits64 (wrap64 a)
unfolding wrap64
wrap64-Fits64 (pos n) = ground arith
wrap64-Fits64 (negsuc n) = ground arith

-- time.Time.Sub saturates at the ends of time.Duration.
unfoldable pub saturate64 : ℤ → ℤ
saturate64 (pos n) = if ltb n half64 then pos n else pos (half64 - 1)
saturate64 (negsuc n) = if ltb n half64 then negsuc n else negsuc (half64 - 1)

unfoldable pub sub_time : ℤ → ℤ → ℤ
unfolding saturate64 ◌-ℤ◌
sub_time a b = saturate64 (a -ℤ b)

-- Addition of two durations, in int64.
unfoldable pub add64 : ℤ → ℤ → ℤ
unfolding wrap64 ◌+ℤ◌
add64 a b = wrap64 (a +ℤ b)

unfoldable pub sub64 : ℤ → ℤ → ℤ
unfolding wrap64 ◌-ℤ◌
sub64 a b = wrap64 (a -ℤ b)

-- A duration times a small positive constant, in int64.
times : ℕ → ℤ → ℤ
times m (pos n) = pos (m * n)
times m (negsuc n) = negsuc (m * n + m - 1)

unfoldable pub mul64 : ℕ → ℤ → ℤ
unfolding wrap64 times
mul64 m a = wrap64 (times m a)

-- `x++` on an int32.
unfoldable pub inc32 : ℤ → ℤ
unfolding wrap32 ◌+ℤ◌
inc32 a = wrap32 (a +ℤ pos 1)

pub inc32_lem : (a : ℤ) → Fits32 a → a <ℤ pos 2147483647 → inc32 a ≡ a +ℤ pos 1
unfolding inc32
inc32_lem (pos n) h l = ground arith
inc32_lem (negsuc n) h l = ground arith

-- Durations in nanoseconds.
abbrev pub second : ℕ
second = 1000000000

abbrev pub minute : ℕ
minute = 60 * second
