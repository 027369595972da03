-- ===== src/RemoteControl/LastSent.antt =====
-- What the multirotor was told last (src/px4_multirotor_ros1_adapter/src/remote_control.cpp).
use xgc2_ros1_adapter.Common.{◌≡◌, refl, Bool, true, false, List, [], ◌∷◌, arith}
use xgc2_ros1_adapter.Common.Int.{ℤ}
use xgc2_ros1_adapter.MotionCommand.Publisher.{Intent}
use xgc2_ros1_adapter.RemoteControl.Publisher.{
  RemotePublisher, new_remote_publisher, publish_target, remote_set_intent, remote_release,
  remote_core_silent, remote_publish_periodic, remote_stop, RemoteCall, calls_set_intent,
  calls_release, calls_core_silent, calls_publish_periodic, calls_stop, remote_call,
  run_remote_calls,
}

module _ {T : Type 0} (still : T) (velocity : Intent → T) where
  -- A multirotor that was told nothing has no velocity.
  abbrev pub last_velocity : List T → T
  last_velocity [] = still
  last_velocity (c ∷ cs) = c

  record RemoteValid (s : RemotePublisher T) : Type 0 where
    rests : s.stopped ≡ false → s.active ≡ false → last_velocity s.sent ≡ still
    mute : s.has_publish ≡ false → last_velocity s.sent ≡ still

  remote_call-RemoteValid :
      (c : RemoteCall) (s : RemotePublisher T)
      → RemoteValid s
      → RemoteValid (remote_call still velocity c s)
  unfolding remote_call remote_set_intent remote_release remote_core_silent remote_publish_periodic
      remote_stop publish_target
  remote_call-RemoteValid (calls_set_intent ok i) s v = record {
    rests = ground (arith, v.rests, v.mute);
    mute = ground (arith, v.mute);
  }
  remote_call-RemoteValid (calls_release ok) s v = record {
    rests = ground (arith, v.rests, v.mute);
    mute = ground (arith, v.mute);
  }
  remote_call-RemoteValid (calls_core_silent ok silent_for) s v = record {
    rests = ground (arith, v.rests, v.mute);
    mute = ground (arith, v.mute);
  }
  remote_call-RemoteValid (calls_publish_periodic ok) s v = record {
    rests = ground (arith, v.rests, v.mute);
    mute = ground (arith, v.mute);
  }
  remote_call-RemoteValid (calls_stop ok) s v = record {
    rests = ground (arith, v.rests, v.mute);
    mute = ground (arith, v.mute);
  }

  run_remote_calls-RemoteValid :
      (cs : List RemoteCall) (s : RemotePublisher T)
      → RemoteValid s
      → RemoteValid (run_remote_calls still velocity cs s)
  unfolding run_remote_calls
  run_remote_calls-RemoteValid [] s v = v
  run_remote_calls-RemoteValid (c ∷ cs) s v =
      run_remote_calls-RemoteValid cs _ (remote_call-RemoteValid c s v)

  record RemoteSilenced (sent : List T) (s : RemotePublisher T) : Type 0 where
    same : s.sent ≡ sent
    stopped : s.stopped ≡ true

  remote_call-RemoteSilenced :
      (sent : List T) (c : RemoteCall) (s : RemotePublisher T)
      → RemoteSilenced sent s
      → RemoteSilenced sent (remote_call still velocity c s)
  unfolding remote_call remote_set_intent remote_release remote_core_silent remote_publish_periodic
      remote_stop
  remote_call-RemoteSilenced sent (calls_set_intent ok i) s v = record {
    same = ground (arith, v.same, v.stopped);
    stopped = ground (arith, v.stopped);
  }
  remote_call-RemoteSilenced sent (calls_release ok) s v = record {
    same = ground (arith, v.same, v.stopped);
    stopped = ground (arith, v.stopped);
  }
  remote_call-RemoteSilenced sent (calls_core_silent ok silent_for) s v = record {
    same = ground (arith, v.same, v.stopped);
    stopped = ground (arith, v.stopped);
  }
  remote_call-RemoteSilenced sent (calls_publish_periodic ok) s v = record {
    same = ground (arith, v.same, v.stopped);
    stopped = ground (arith, v.stopped);
  }
  remote_call-RemoteSilenced sent (calls_stop ok) s v = record {
    same = ground (arith, v.same, v.stopped);
    stopped = ground (arith, v.stopped);
  }

  run_remote_calls-RemoteSilenced :
      (sent : List T) (cs : List RemoteCall) (s : RemotePublisher T)
      → RemoteSilenced sent s
      → RemoteSilenced sent (run_remote_calls still velocity cs s)
  unfolding run_remote_calls
  run_remote_calls-RemoteSilenced sent [] s v = v
  run_remote_calls-RemoteSilenced sent (c ∷ cs) s v =
      run_remote_calls-RemoteSilenced sent cs _ (remote_call-RemoteSilenced sent c s v)

  remote_stop-still :
      (s : RemotePublisher T)
      → RemoteValid s
      → s.stopped ≡ false
      → last_velocity (remote_stop still velocity true s).sent ≡ still
  unfolding remote_stop publish_target
  remote_stop-still s v e = ground (arith, v.rests, v.mute)

  remote_stop_stopped :
      (ok : Bool) (s : RemotePublisher T) → (remote_stop still velocity ok s).stopped ≡ true
  unfolding remote_stop publish_target
  remote_stop_stopped ok s = ground arith

  -- After any calls of a publisher, whichever publications failed: if it is not stopped and no intent is
  -- active, the velocity that was published last is zero; and if it is not stopped, a stop whose
  -- publication does not fail leaves zero published last, after which no call publishes anything.
  pub run_remote_calls-last_velocity :
      (h : Bool) (l : ℤ) (cs ds : List RemoteCall)
      → let s = run_remote_calls still velocity cs (new_remote_publisher still velocity h l) in
        s.stopped ≡ false
        → let t = remote_stop still velocity true s in
          (s.active ≡ false → last_velocity s.sent ≡ still)
          × (last_velocity t.sent ≡ still)
          × ((run_remote_calls still velocity ds t).sent ≡ t.sent)
  run_remote_calls-last_velocity h l cs ds e =
      let s = run_remote_calls still velocity cs (new_remote_publisher still velocity h l) in
      let v =
        run_remote_calls-RemoteValid cs (new_remote_publisher still velocity h l)
          (record { rests = λ a b. refl; mute = λ a. refl }) in
      let t = remote_stop still velocity true s in
      let k =
        run_remote_calls-RemoteSilenced t.sent ds t
          (record { same = refl; stopped = remote_stop_stopped true s }) in
      (v.rests e, remote_stop-still s v e, k.same)
