-- ===== src/Controller/Timing/Backoff.antt =====
-- The backoff of a failed attempt: initial * 2^(failed - 1), capped at the maximum.
use Prim.Native.Nat.{min}
use artifact_controller.Prelude.{
  ℕ, zero, suc, ◌*◌, ◌^◌, ◌<◌, ◌≤◌, ◌≡◌, arith, Bool-cases, inl, inr, leb,
}
use native.Mathlib.Numerals.{sub-one}
use native.Mathlib.Nat.{one-le-pow, pow-suc, pow-zero}
use artifact_controller.Prelude.Int.{pos, mul64}
use artifact_controller.Controller.Timing.{backoff_loop, backoff_delay}

-- 2^62 ns, about 146 years: below it a doubled delay does not overflow.
abbrev pub half_range : ℕ
half_range = 4611686018427387904

mul64_two : (d : ℕ) → d < half_range → mul64 2 (pos d) ≡ pos (2 * d)
unfolding mul64
mul64_two d h = ground arith

le-mul-pow : (d n : ℕ) → d ≤ d * 2 ^ n
le-mul-pow d n = let q : 1 ≤ 2 ^ n = one-le-pow n 2 (omega arith) in grind arith

backoff_loop_lem :
    (n d m : ℕ)
    → d < half_range
    → m ≤ half_range
    → backoff_loop n (pos d) (pos m) ≡ pos (min m (d * 2 ^ n))
unfolding backoff_loop
backoff_loop_lem zero d m h l = ground (arith, pow-zero 2)
backoff_loop_lem (suc n) d m h l =
    let e : d * 2 ^ suc n ≡ 2 * d * 2 ^ n = rw (pow-suc 2 n) (omega arith) in
    rw (mul64_two d h, e)
      (elim (Bool-cases (leb m (2 * d))) [
        | inl t ↦ ground (arith, le-mul-pow (2 * d) n)
        | inr f ↦ ground (arith, backoff_loop_lem n (2 * d) m)
      ])

-- For delays below 2^62 ns the loop of backoffDelay computes initial * 2^(failed - 1), capped at
-- the maximum, for every failure count from 1 on, and does not overflow.
pub backoff_delay-eq-min :
    (n i m : ℕ)
    → i < half_range
    → m ≤ half_range
    → backoff_delay (pos (suc n)) (pos i) (pos m) ≡ pos (min m (i * 2 ^ n))
unfolding backoff_delay
backoff_delay-eq-min n i m h l = rw sub-one (backoff_loop_lem n i m h l)
