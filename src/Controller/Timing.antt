-- ===== src/Controller/Timing.antt =====
-- Delays of artifact_controller.go: the exponential backoff and the jitter.
pub mod Backoff
use artifact_controller.Prelude.{ℕ, zero, suc, ◌-◌, ◌*◌, Bool, if◌then◌else◌}
use artifact_controller.Prelude.Int.{ℤ, pos, ltb_ℤ, leb_ℤ, pos_part, mul64, second}
use artifact_controller.Calls.{Trace}
use artifact_controller.Controller.Session.{Cluster}

-- The loop of backoffDelay with `n` rounds left, and the cap after it.
unfoldable pub backoff_loop : ℕ → ℤ → ℤ → ℤ
unfolding mul64
backoff_loop zero d max = if ltb_ℤ max d then max else d
backoff_loop (suc n) d max =
    let rest = backoff_loop n (mul64 2 d) max in if leb_ℤ max (mul64 2 d) then max else rest

-- backoffDelay: the loop makes failed - 1 rounds, none for failed ≤ 1.
unfoldable pub backoff_delay : ℤ → ℤ → ℤ → ℤ
unfolding backoff_loop
backoff_delay failed initial max = backoff_loop (pos_part failed - 1) initial max

-- jittered
unfoldable pub jittered : Cluster → Trace → ℤ → ℤ
jittered c tr d = if leb_ℤ d (pos 0) then d else c.scale_random tr d

-- unrecognizedGracePeriod
abbrev pub unrecognized_grace_period : ℤ
unrecognized_grace_period = pos (15 * second)
