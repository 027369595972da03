-- ===== src/Px4Operations/Requests.antt =====
-- The requests to the autopilot (src/px4_multirotor_ros1_adapter/src/px4_operations.cpp). The
-- parameters of a command are whole numbers in all of them; a field that is not set is zero.
use xgc2_ros1_adapter.Common.{ℕ, Bool, false, List, [], ◌∷◌, ◌||◌, Bytes, bytes_eq}

unfoldable pub is_allowed_px4_mode : (mode : Bytes) → (allowed_modes : List Bytes) → Bool
is_allowed_px4_mode mode [] = false
is_allowed_px4_mode mode (m ∷ ms) = bytes_eq m mode || is_allowed_px4_mode mode ms

pub record CommandBool : Type 0 where
  pub value : Bool

pub record SetMode : Type 0 where
  pub base_mode : ℕ
  pub custom_mode : Bytes

pub record CommandLong : Type 0 where
  pub broadcast : Bool
  pub command : ℕ
  pub confirmation : ℕ
  pub param1 : ℕ
  pub param2 : ℕ

abbrev pub make_arm_command : (armed : Bool) → CommandBool
make_arm_command armed = record { value = armed }

abbrev pub make_mode_command : (mode : Bytes) → SetMode
make_mode_command mode = record { base_mode = 0; custom_mode = mode }

abbrev pub px4_reboot_mav_command : ℕ
px4_reboot_mav_command = 246

abbrev pub px4_force_disarm_mav_command : ℕ
px4_force_disarm_mav_command = 400

abbrev pub make_autopilot_reboot_command : CommandLong
make_autopilot_reboot_command = record {
  broadcast = false;
  command = px4_reboot_mav_command;
  confirmation = 0;
  param1 = 1;
  param2 = 0;
}

abbrev pub make_force_disarm_command : CommandLong
make_force_disarm_command = record {
  broadcast = false;
  command = px4_force_disarm_mav_command;
  confirmation = 0;
  param1 = 0;
  param2 = 21196;
}
