-- ===== src/Controller/Wakeup/Delays.antt =====
-- The delays that a reconciliation asks for are positive.
use artifact_controller.Prelude.{ℕ, zero, suc, ◌-◌, ◌*◌, arith, inl, inr, Bool-cases, if◌then◌else◌}
use artifact_controller.Prelude.Int.{
  ℤ, pos, ◌≤ℤ◌, ◌<ℤ◌, ◌+ℤ◌, ◌-ℤ◌, ltb_ℤ, leb_ℤ, pos_part, mul64, add64, sub64, sub_time, saturate64,
  wrap64, second,
}
use artifact_controller.Calls.{Trace}
use artifact_controller.Controller.Session.{Cluster}
use artifact_controller.Controller.Timing.{jittered, backoff_loop, backoff_delay}

-- 2^61 ns, about 73 years.
abbrev pub far : ℕ
far = 2305843009213693952

-- The random factor of at least 0.9 leaves a positive delay of a delay of 2 ns or more.
abbrev pub Jitters : Cluster → Type 0
Jitters c = (tr : Trace) (d : ℤ) → pos 1 <ℤ d → pos 0 <ℤ c.scale_random tr d

pub jittered-Positive :
    (c : Cluster) → Jitters c → (tr : Trace) (d : ℤ) → pos 1 <ℤ d → pos 0 <ℤ jittered c tr d
unfolding jittered
jittered-Positive c j tr d h = ground (arith, h, j tr d h)

-- Ten times an interval of at most 2^59 ns, about 18 years.
pub ten_intervals : (i : ℤ) → pos 1 <ℤ i → i ≤ℤ pos 576460752303423488 → pos 1 <ℤ mul64 10 i
unfolding mul64
ten_intervals i h l = ground (arith, h, l)

abbrev pub InRange : ℤ → Type 0
InRange d = (pos 0 <ℤ d) × (d ≤ℤ pos far)

doubled-InRange : (d m : ℤ) → InRange d → InRange m → mul64 2 d <ℤ m → InRange (mul64 2 d)
unfolding mul64
doubled-InRange d m h l t = ground (arith, h, l, t)

backoff_loop-InRange : (n : ℕ) (d m : ℤ) → InRange d → InRange m → InRange (backoff_loop n d m)
unfolding backoff_loop
backoff_loop-InRange zero d m h l = ground (arith, h, l)
backoff_loop-InRange (suc n) d m h l = elim (Bool-cases (leb_ℤ m (mul64 2 d))) [
  | inl t ↦ rw t l
  | inr f ↦
      rw f (backoff_loop-InRange n (mul64 2 d) m (doubled-InRange d m h l (ground (arith, f))) l)
]

pub backoff_delay-InRange : (n i m : ℤ) → InRange i → InRange m → InRange (backoff_delay n i m)
unfolding backoff_delay
backoff_delay-InRange n i m h l = backoff_loop-InRange (pos_part n - 1) i m h l

-- The wait of a backoff: a second more than what is left.
pub wait_for_next :
    (lf delay now : ℤ)
    → InRange delay
    → lf ≤ℤ (now +ℤ pos far)
    → now <ℤ (lf +ℤ delay)
    → pos 0 <ℤ add64 (sub_time (lf +ℤ delay) now) (pos second)
unfolding add64 sub_time ◌+ℤ◌ ◌-ℤ◌ wrap64 saturate64
wait_for_next lf delay now h l t = ground (arith, h, l, t)

-- The wait for an artifact within its grace period.
pub wait_for_artifact :
    (grace at now : ℤ)
    → InRange grace
    → at ≤ℤ (now +ℤ pos far)
    → sub_time now at <ℤ grace
    → let rem = sub64 grace (sub_time now at) in
      pos 0 <ℤ (if ltb_ℤ rem (pos (10 * second)) then add64 rem (pos second) else pos (10 * second))
unfolding add64 sub64 sub_time ◌+ℤ◌ ◌-ℤ◌ wrap64 saturate64
wait_for_artifact grace at now h l t = ground (arith, h, l, t)
