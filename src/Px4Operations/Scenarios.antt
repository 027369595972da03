-- ===== src/Px4Operations/Scenarios.antt =====
-- Tests of src/px4_multirotor_ros1_adapter/src/px4_operations.cpp, and the theorems at concrete inputs.
use xgc2_ros1_adapter.Common.{
  ◌-◌, ◌≤◌, ◌<◌, ◌≡◌, ◌↔◌, refl, true, false, [], ◌∷◌, not, ◌&&◌, ltb, codes, bytes_eq,
}
use xgc2_ros1_adapter.Px4Operations.Requests.{is_allowed_px4_mode}
use xgc2_ros1_adapter.Px4Operations.Results.{
  not_ready, uncertain, native_failure_outcome, native_command_result, arm, force_disarm, interpret,
  is_succeeded, is_done, is_refused, is_uncertain, interpret_lem,
}
use xgc2_ros1_adapter.Px4Operations.Reboot.{
  Px4StateSnapshot, is_armed, evaluate_px4_reboot_readiness, is_ready,
  evaluate_px4_reboot_readiness_lem,
}

operations_code : Unit {0}
unfolding bytes_eq is_allowed_px4_mode native_failure_outcome native_command_result interpret
    evaluate_px4_reboot_readiness
operations_code = tt

abbrev armed_state : Px4StateSnapshot
armed_state = record { known = true; connected = true; armed = true; observed_at = 5 }

answers :
    ((interpret (arm true true 1)).outcome ≡ not_ready)
    × ((interpret (force_disarm false 0)).outcome ≡ uncertain)
    × (is_allowed_px4_mode (codes "HOLD") (codes "OFFBOARD" ∷ codes "HOLD" ∷ []) ≡ true)
    × (evaluate_px4_reboot_readiness true (ltb 10) armed_state 7 ≡ is_armed)
unfolding operations_code
answers = (refl, refl, refl, refl)

interpret_lem_example :
    (is_succeeded (interpret (arm true false 9)) ≡ is_done (arm true false 9))
    × (is_uncertain (interpret (arm true false 9)).outcome
        ≡ (not (is_done (arm true false 9)) && not (is_refused (arm true false 9))))
    × ((interpret (arm true false 9)).dispatched ≡ true)
interpret_lem_example = interpret_lem (arm true false 9)

evaluate_px4_reboot_readiness_lem_example :
    (is_ready (evaluate_px4_reboot_readiness true (ltb 10) armed_state 7) ≡ true) ↔ (
      (armed_state.known ≡ true)
      × (0 < armed_state.observed_at)
      × (armed_state.observed_at ≤ 7)
      × (true ≡ true)
      × (ltb 10 (7 - armed_state.observed_at) ≡ false)
      × (armed_state.connected ≡ true)
      × (armed_state.armed ≡ false))
evaluate_px4_reboot_readiness_lem_example =
    evaluate_px4_reboot_readiness_lem true (ltb 10) armed_state 7
