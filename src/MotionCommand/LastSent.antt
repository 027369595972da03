-- ===== src/MotionCommand/LastSent.antt =====
-- What the robot was told last (src/ugv_ros1_adapter/src/motion_command.cpp).
use xgc2_ros1_adapter.Common.{◌≡◌, refl, ◌∙◌, ap, Bool, true, false, List, [], ◌∷◌, arith}
use xgc2_ros1_adapter.Common.Int.{ℤ}
use xgc2_ros1_adapter.MotionCommand.Publisher.{
  Publisher, Intent, new_publisher, motion_intent_command, publish_locked, set_intent, release,
  core_silent, publish_periodic, stop, Call, calls_set_intent, calls_release, calls_core_silent,
  calls_publish_periodic, calls_stop, call, run_calls,
}

module _ {T : Type 0} (still : T) (twist : Intent → T) where
  -- A robot that was told nothing stands still.
  abbrev pub last_sent : List T → T
  last_sent [] = still
  last_sent (c ∷ cs) = c

  record MotionValid (s : Publisher T) : Type 0 where
    last : s.stopped ≡ false → last_sent s.sent ≡ s.command
    rests : s.active ≡ false → s.command ≡ still
    working : s.active ≡ true → s.has_publish ≡ true

  call-MotionValid :
      (c : Call still twist) (s : Publisher T) → MotionValid s → MotionValid (call still twist c s)
  unfolding call set_intent release core_silent publish_periodic stop motion_intent_command
      publish_locked
  call-MotionValid (calls_set_intent ok i) s v = record {
    last = ground (arith, v.last, v.rests);
    rests = ground (arith, v.last, v.rests);
    working = ground (arith, v.working);
  }
  call-MotionValid (calls_release ok) s v = record {
    last = ground (arith, v.last, v.rests);
    rests = ground (arith, v.last, v.rests);
    working = ground (arith, v.working);
  }
  call-MotionValid (calls_core_silent ok silent_for) s v = record {
    last = ground (arith, v.last, v.rests);
    rests = ground (arith, v.last, v.rests);
    working = ground (arith, v.working);
  }
  call-MotionValid (calls_publish_periodic ok) s v = record {
    last = ground (arith, v.last, v.rests);
    rests = ground (arith, v.last, v.rests);
    working = ground (arith, v.working);
  }
  call-MotionValid (calls_stop ok) s v = record {
    last = ground (arith, v.last, v.rests);
    rests = ground (arith, v.last, v.rests);
    working = ground (arith, v.working);
  }

  run_calls-MotionValid :
      (cs : List (Call still twist)) (s : Publisher T)
      → MotionValid s
      → MotionValid (run_calls still twist cs s)
  unfolding run_calls
  run_calls-MotionValid [] s v = v
  run_calls-MotionValid (c ∷ cs) s v = run_calls-MotionValid cs _ (call-MotionValid c s v)

  new_publisher-MotionValid : (h : Bool) (l : ℤ) → MotionValid (new_publisher still twist h l)
  new_publisher-MotionValid h l = record { last = λ e. refl; rests = λ e. refl; working = λ e. cc }

  -- After any calls of a publisher that was not stopped, whichever publications failed, the command that
  -- was published last is the held one, and the zero command if no intent is active; a publisher that
  -- published nothing counts as having published zero.
  pub run_calls-last_sent :
      (h : Bool) (l : ℤ) (cs : List (Call still twist))
      → let s = run_calls still twist cs (new_publisher still twist h l) in
        s.stopped ≡ false
        → (last_sent s.sent ≡ s.command) × (s.active ≡ false → last_sent s.sent ≡ still)
  run_calls-last_sent h l cs e =
      let v = run_calls-MotionValid cs _ (new_publisher-MotionValid h l) in
      (v.last e, λ a. v.last e ∙ v.rests a)

  record Silenced (sent : List T) (s : Publisher T) : Type 0 where
    same : s.sent ≡ sent
    stopped : s.stopped ≡ true

  call-Silenced :
      (sent : List T) (c : Call still twist) (s : Publisher T)
      → Silenced sent s
      → Silenced sent (call still twist c s)
  unfolding call set_intent release core_silent publish_periodic stop motion_intent_command
  call-Silenced sent (calls_set_intent ok i) s v = record {
    same = ground (arith, v.same, v.stopped);
    stopped = ground (arith, v.stopped);
  }
  call-Silenced sent (calls_release ok) s v = record {
    same = ground (arith, v.same, v.stopped);
    stopped = ground (arith, v.stopped);
  }
  call-Silenced sent (calls_core_silent ok silent_for) s v = record {
    same = ground (arith, v.same, v.stopped);
    stopped = ground (arith, v.stopped);
  }
  call-Silenced sent (calls_publish_periodic ok) s v = record {
    same = ground (arith, v.same, v.stopped);
    stopped = ground (arith, v.stopped);
  }
  call-Silenced sent (calls_stop ok) s v = record {
    same = ground (arith, v.same, v.stopped);
    stopped = ground (arith, v.stopped);
  }

  run_calls-Silenced :
      (sent : List T) (cs : List (Call still twist)) (s : Publisher T)
      → Silenced sent s
      → Silenced sent (run_calls still twist cs s)
  unfolding run_calls
  run_calls-Silenced sent [] s v = v
  run_calls-Silenced sent (c ∷ cs) s v = run_calls-Silenced sent cs _ (call-Silenced sent c s v)

  stop-still :
      (s : Publisher T)
      → MotionValid s
      → s.stopped ≡ false
      → last_sent (stop still twist true s).sent ≡ still
  unfolding stop publish_locked
  stop-still s v e = ground (arith, v.last, v.rests, v.working)

  stop_stopped : (ok : Bool) (s : Publisher T) → (stop still twist ok s).stopped ≡ true
  unfolding stop publish_locked
  stop_stopped ok s = ground arith

  -- Once a publisher that was in use is stopped, and the publication of its stop did not fail, no later
  -- call publishes anything, and the last command that was published is zero.
  pub stop-last_sent :
      (h : Bool) (l : ℤ) (cs ds : List (Call still twist))
      → let s = run_calls still twist cs (new_publisher still twist h l) in
        s.stopped ≡ false
        → let t = stop still twist true s in
          ((run_calls still twist ds t).sent ≡ t.sent)
          × (last_sent (run_calls still twist ds t).sent ≡ still)
  stop-last_sent h l cs ds e =
      let s = run_calls still twist cs (new_publisher still twist h l) in
      let v = run_calls-MotionValid cs _ (new_publisher-MotionValid h l) in
      let t = stop still twist true s in
      let k =
        run_calls-Silenced t.sent ds t (record { same = refl; stopped = stop_stopped true s }) in
      (k.same, ap last_sent k.same ∙ stop-still s v e)
