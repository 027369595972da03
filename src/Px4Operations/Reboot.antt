-- ===== src/Px4Operations/Reboot.antt =====
-- `evaluatePx4RebootReadiness` (src/px4_multirotor_ros1_adapter/src/px4_operations.cpp). Times are
-- nanoseconds. `positive` is whether the timeout is finite and above zero, `exceeds` whether an age in
-- seconds is above it, which are floating-point comparisons.
use xgc2_ros1_adapter.Common.{
  ℕ, ◌-◌, ◌≤◌, ◌<◌, ◌≡◌, ◌↔◌, Bool, true, false, not, ◌||◌, ltb, ◌==◌, if◌then◌else◌, arith,
}

pub record Px4StateSnapshot : Type 0 where
  pub known : Bool
  pub connected : Bool
  pub armed : Bool
  pub observed_at : ℕ

pub data Px4RebootReadiness : Type 0 where
  ready state_unknown state_stale disconnected is_armed : Px4RebootReadiness

unfoldable pub evaluate_px4_reboot_readiness :
    (positive : Bool) → (exceeds : ℕ → Bool) → Px4StateSnapshot → (now : ℕ) → Px4RebootReadiness
evaluate_px4_reboot_readiness positive exceeds s now =
    if not s.known || s.observed_at == 0
    then state_unknown
    else (if not positive || (ltb now s.observed_at || exceeds (now - s.observed_at))
        then state_stale
        else (if not s.connected then disconnected else (if s.armed then is_armed else ready)))

abbrev pub is_ready : Px4RebootReadiness → Bool
is_ready ready = true
is_ready _ = false

-- An autopilot may be rebooted exactly if its state is known, was observed not later than now and not
-- longer ago than a positive timeout, and says that it is connected and disarmed.
pub evaluate_px4_reboot_readiness_lem :
    (positive : Bool) (exceeds : ℕ → Bool) (s : Px4StateSnapshot) (now : ℕ)
    → (is_ready (evaluate_px4_reboot_readiness positive exceeds s now) ≡ true) ↔ (
        (s.known ≡ true)
        × (0 < s.observed_at)
        × (s.observed_at ≤ now)
        × (positive ≡ true)
        × (exceeds (now - s.observed_at) ≡ false)
        × (s.connected ≡ true)
        × (s.armed ≡ false))
unfolding evaluate_px4_reboot_readiness
evaluate_px4_reboot_readiness_lem positive exceeds s now = ground arith
