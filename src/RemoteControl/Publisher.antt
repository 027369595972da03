-- ===== src/RemoteControl/Publisher.antt =====
-- `RemoteControlPublisher` (src/px4_multirotor_ros1_adapter/src/remote_control.cpp). The velocity and
-- the yaw rate of the setpoint are of any type: `still` is zero, and `velocity` the floating-point
-- scaling of an intent. The other fields of the setpoint never change but for its time.
use xgc2_ros1_adapter.Common.{Bool, true, false, List, [], ◌∷◌, ◌&&◌, ◌||◌, not, ltb, if◌then◌else◌}
use xgc2_ros1_adapter.Common.Int.{ℤ, pos, negsuc, leb_ℤ, ltb_ℤ}
use xgc2_ros1_adapter.MotionCommand.Publisher.{Intent}

-- `sent` is what the publish function took, the last first; the state is that of the class.
pub record RemotePublisher (T : Type 0) : Type 0 where
  pub has_publish : Bool
  pub core_silence_limit : ℤ
  pub target : T
  pub active : Bool
  pub stopped : Bool
  pub sent : List T

abbrev outside : ℤ → Bool
outside a = ltb_ℤ a (negsuc 0) || ltb_ℤ (pos 1) a

unfoldable pub outside_bounds : Intent → Bool
outside_bounds i =
    ltb i.gear 1
    || (ltb 3 i.gear || (outside i.longitudinal || (outside i.lateral || outside i.yaw)))

pub data RemoteCall : Type 0 where
  calls_set_intent : Bool → Intent → RemoteCall
  calls_release : Bool → RemoteCall
  calls_core_silent : Bool → ℤ → RemoteCall
  calls_publish_periodic : Bool → RemoteCall
  calls_stop : Bool → RemoteCall

module _ {T : Type 0} (still : T) (velocity : Intent → T) where
  abbrev pub new_remote_publisher :
      (has_publish : Bool) (core_silence_limit : ℤ) → RemotePublisher T
  new_remote_publisher has_publish core_silence_limit = record {
    has_publish = has_publish;
    core_silence_limit = core_silence_limit;
    target = still;
    active = false;
    stopped = false;
    sent = [];
  }

  -- `ok` is whether the publish function returns.
  unfoldable pub publish_target : (ok : Bool) → RemotePublisher T → RemotePublisher T × Bool
  publish_target ok s =
      if s.has_publish && ok then (record s { sent = s.target ∷ s.sent }, true) else (s, false)

  -- The stream ends if the zero velocity was published.
  abbrev pub rested : RemotePublisher T × Bool → RemotePublisher T × Bool
  rested (s, true) = (record s { active = false }, true)
  rested (s, false) = (s, false)

  unfoldable pub remote_set_intent : Bool → Intent → RemotePublisher T → RemotePublisher T × Bool
  unfolding publish_target
  remote_set_intent ok i s =
      if outside_bounds i
      then (s, false)
      else (if s.stopped
          then (s, false)
          else publish_target ok (record s { target = velocity i; active = true }))

  unfoldable pub remote_release : Bool → RemotePublisher T → RemotePublisher T × Bool
  unfolding publish_target
  remote_release ok s =
      if s.stopped then (s, false) else rested (publish_target ok (record s { target = still }))

  unfoldable pub remote_core_silent :
      Bool → (silent_for : ℤ) → RemotePublisher T → RemotePublisher T × Bool
  unfolding publish_target
  remote_core_silent ok silent_for s =
      if leb_ℤ s.core_silence_limit (pos 0) || ltb_ℤ silent_for s.core_silence_limit
      then (s, false)
      else (if s.stopped || not s.active
          then (s, false)
          else rested (publish_target ok (record s { target = still })))

  unfoldable pub remote_publish_periodic : Bool → RemotePublisher T → RemotePublisher T
  unfolding publish_target
  remote_publish_periodic ok s = if not s.stopped && s.active then (publish_target ok s).0 else s

  unfoldable pub remote_stop : Bool → RemotePublisher T → RemotePublisher T
  unfolding publish_target
  remote_stop ok s =
      if s.stopped
      then s
      else (let t = record s { target = still } in
          let u = if s.active then (publish_target ok t).0 else t in
          record u { active = false; stopped = true })

  unfoldable pub remote_call : RemoteCall → RemotePublisher T → RemotePublisher T
  unfolding remote_set_intent remote_release remote_core_silent remote_publish_periodic remote_stop
  remote_call (calls_set_intent ok i) s = (remote_set_intent ok i s).0
  remote_call (calls_release ok) s = (remote_release ok s).0
  remote_call (calls_core_silent ok silent_for) s = (remote_core_silent ok silent_for s).0
  remote_call (calls_publish_periodic ok) s = remote_publish_periodic ok s
  remote_call (calls_stop ok) s = remote_stop ok s

  unfoldable pub run_remote_calls : List RemoteCall → RemotePublisher T → RemotePublisher T
  run_remote_calls [] s = s
  run_remote_calls (c ∷ cs) s = run_remote_calls cs (remote_call c s)
