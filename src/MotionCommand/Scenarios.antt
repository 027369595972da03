-- ===== src/MotionCommand/Scenarios.antt =====
-- Tests of src/ugv_ros1_adapter/src/motion_command.cpp, and the theorems at concrete inputs. The
-- commands are intents here.
use xgc2_ros1_adapter.Common.{◌≡◌, refl, true, false, List, [], ◌∷◌}
use xgc2_ros1_adapter.Common.Int.{pos, negsuc}
use xgc2_ros1_adapter.MotionCommand.Publisher.{
  Publisher, Intent, valid_intent, new_publisher, motion_intent_command, publish_locked, set_intent,
  release, core_silent, publish_periodic, stop, Call, calls_set_intent, calls_release,
  calls_core_silent, calls_publish_periodic, call, run_calls,
}
use xgc2_ros1_adapter.MotionCommand.LastSent.{last_sent, run_calls-last_sent, stop-last_sent}

motion_code : Unit {0}
unfolding valid_intent motion_intent_command publish_locked set_intent release core_silent
    publish_periodic stop call run_calls
motion_code = tt

abbrev still : Intent
still = record { gear = 0; longitudinal = pos 0; lateral = pos 0; yaw = pos 0 }

abbrev forward : Intent
forward = record { gear = 2; longitudinal = pos 1; lateral = pos 0; yaw = negsuc 0 }

abbrev twist : Intent → Intent
twist i = i

-- An intent, its repetition, a failed release and the dead-man.
abbrev calls : List (Call still twist)
calls =
    calls_set_intent true forward
    ∷ calls_publish_periodic true
    ∷ calls_release false
    ∷ calls_core_silent true (pos 700)
    ∷ []

abbrev after : List (Call still twist) → Publisher Intent
after cs = run_calls still twist cs (new_publisher still twist true (pos 500))

sends_twice_and_stops :
    ((after calls).sent ≡ still ∷ forward ∷ forward ∷ []) × ((after calls).active ≡ false)
unfolding motion_code
sends_twice_and_stops = (refl, refl)

run_calls-last_sent_example :
    (last_sent still twist (after calls).sent ≡ (after calls).command)
    × ((after calls).active ≡ false → last_sent still twist (after calls).sent ≡ still)
unfolding motion_code
run_calls-last_sent_example = run_calls-last_sent still twist true (pos 500) calls refl

stop-last_sent_example :
    let t = stop still twist true (after (calls_set_intent true forward ∷ [])) in
    ((run_calls still twist calls t).sent ≡ t.sent)
    × (last_sent still twist (run_calls still twist calls t).sent ≡ still)
unfolding motion_code
stop-last_sent_example =
    stop-last_sent still twist true (pos 500) (calls_set_intent true forward ∷ []) calls refl
