-- ===== src/MotionCommand/Publisher.antt =====
-- `MotionCommandPublisher` (src/ugv_ros1_adapter/src/motion_command.cpp). A velocity command is of
-- any type: `still` is the zero Twist, and `twist` is the floating-point scaling of an intent by the
-- gear and the limits.
use xgc2_ros1_adapter.Common.{
  ℕ, Bool, true, false, List, [], ◌∷◌, Option, none, some, ◌&&◌, ◌||◌, not, leb, if◌then◌else◌,
}
use xgc2_ros1_adapter.Common.Int.{ℤ, pos, negsuc, leb_ℤ}

-- `sent` is what the publish function took, the last first; the state is that of the class.
pub record Publisher (T : Type 0) : Type 0 where
  pub has_publish : Bool
  pub core_silence_limit : ℤ
  pub command : T
  pub active : Bool
  pub stopped : Bool
  pub sent : List T

pub record Intent : Type 0 where
  pub gear : ℕ
  pub longitudinal : ℤ
  pub lateral : ℤ
  pub yaw : ℤ

abbrev unit_axis : ℤ → Bool
unit_axis a = leb_ℤ (negsuc 0) a && leb_ℤ a (pos 1)

unfoldable pub valid_intent : Intent → Bool
valid_intent i =
    leb 1 i.gear
    && (leb i.gear 3 && (unit_axis i.longitudinal && (unit_axis i.yaw && unit_axis i.lateral)))

module _ {T : Type 0} (still : T) (twist : Intent → T) where
  -- The constructor.
  abbrev pub new_publisher : (has_publish : Bool) (core_silence_limit : ℤ) → Publisher T
  new_publisher has_publish core_silence_limit = record {
    has_publish = has_publish;
    core_silence_limit = core_silence_limit;
    command = still;
    active = false;
    stopped = false;
    sent = [];
  }

  unfoldable pub motion_intent_command : Intent → Option T
  motion_intent_command i = if valid_intent i then some (twist i) else none

  -- `ok` is whether the publish function returns.
  unfoldable pub publish_locked : (ok : Bool) → T → Publisher T → Publisher T × Bool
  publish_locked ok c s =
      if s.has_publish && ok then (record s { sent = c ∷ s.sent }, true) else (s, false)

  -- The published command is held, if it was published.
  abbrev pub held : T → (active : Bool) → Publisher T × Bool → Publisher T × Bool
  held c active (s, true) = (record s { command = c; active = active }, true)
  held c active (s, false) = (s, false)

  unfoldable pub set_intent : Bool → Intent → Publisher T → Publisher T × Bool
  unfolding motion_intent_command publish_locked
  set_intent ok i s = elim (motion_intent_command i) [
    | none ↦ (s, false)
    | some c ↦ if s.stopped then (s, false) else held c true (publish_locked ok c s)
  ]

  unfoldable pub release : Bool → Publisher T → Publisher T × Bool
  unfolding publish_locked
  release ok s = if s.stopped then (s, false) else held still false (publish_locked ok still s)

  unfoldable pub core_silent : Bool → (silent_for : ℤ) → Publisher T → Publisher T × Bool
  unfolding publish_locked
  core_silent ok silent_for s =
      if leb_ℤ s.core_silence_limit (pos 0) || not (leb_ℤ s.core_silence_limit silent_for)
      then (s, false)
      else (if s.stopped || not s.active
          then (s, false)
          else held still false (publish_locked ok still s))

  unfoldable pub publish_periodic : Bool → Publisher T → Publisher T
  unfolding publish_locked
  publish_periodic ok s = if s.stopped || not s.active then s else (publish_locked ok s.command s).0

  unfoldable pub stop : Bool → Publisher T → Publisher T
  unfolding publish_locked
  stop ok s =
      if s.stopped
      then s
      else (let t = record s { command = still } in
          let u = if s.active then (publish_locked ok still t).0 else t in
          record u { active = false; stopped = true })

  pub data Call : Type 0 where
    calls_set_intent : Bool → Intent → Call
    calls_release : Bool → Call
    calls_core_silent : Bool → ℤ → Call
    calls_publish_periodic : Bool → Call
    calls_stop : Bool → Call

  unfoldable pub call : Call → Publisher T → Publisher T
  unfolding set_intent release core_silent publish_periodic stop
  call (calls_set_intent ok i) s = (set_intent ok i s).0
  call (calls_release ok) s = (release ok s).0
  call (calls_core_silent ok silent_for) s = (core_silent ok silent_for s).0
  call (calls_publish_periodic ok) s = publish_periodic ok s
  call (calls_stop ok) s = stop ok s

  unfoldable pub run_calls : List Call → Publisher T → Publisher T
  run_calls [] s = s
  run_calls (c ∷ cs) s = run_calls cs (call c s)
