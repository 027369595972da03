-- ===== src/RemoteControl/Scenarios.antt =====
-- Tests of src/px4_multirotor_ros1_adapter/src/remote_control.cpp, and the theorem at a concrete
-- input. The velocities are intents here.
use xgc2_ros1_adapter.Common.{◌≡◌, refl, true, false, List, [], ◌∷◌}
use xgc2_ros1_adapter.Common.Int.{pos, negsuc}
use xgc2_ros1_adapter.MotionCommand.Publisher.{Intent}
use xgc2_ros1_adapter.RemoteControl.Publisher.{
  RemotePublisher, outside_bounds, new_remote_publisher, publish_target, remote_set_intent,
  remote_release, remote_core_silent, remote_publish_periodic, remote_stop, RemoteCall,
  calls_set_intent, calls_release, calls_core_silent, calls_publish_periodic, remote_call,
  run_remote_calls,
}
use xgc2_ros1_adapter.RemoteControl.LastSent.{last_velocity, run_remote_calls-last_velocity}

remote_code : Unit {0}
unfolding outside_bounds publish_target remote_set_intent remote_release remote_core_silent
    remote_publish_periodic remote_stop remote_call run_remote_calls
remote_code = tt

abbrev hover : Intent
hover = record { gear = 0; longitudinal = pos 0; lateral = pos 0; yaw = pos 0 }

abbrev climb : Intent
climb = record { gear = 3; longitudinal = pos 1; lateral = negsuc 0; yaw = pos 0 }

abbrev velocity : Intent → Intent
velocity i = i

-- An intent whose publication fails is still streamed, until the dead-man ends it.
abbrev flight : List RemoteCall
flight =
    calls_set_intent false climb
    ∷ calls_publish_periodic true
    ∷ calls_release false
    ∷ calls_core_silent true (pos 700)
    ∷ []

abbrev flown : RemotePublisher Intent
flown = run_remote_calls hover velocity flight (new_remote_publisher hover velocity true (pos 500))

streams : (flown.sent ≡ hover ∷ climb ∷ []) × (flown.active ≡ false)
unfolding remote_code
streams = (refl, refl)

run_remote_calls-last_velocity_example :
    let t = remote_stop hover velocity true flown in
    (flown.active ≡ false → last_velocity hover velocity flown.sent ≡ hover)
    × (last_velocity hover velocity t.sent ≡ hover)
    × ((run_remote_calls hover velocity flight t).sent ≡ t.sent)
unfolding remote_code
run_remote_calls-last_velocity_example =
    run_remote_calls-last_velocity hover velocity true (pos 500) flight flight refl
