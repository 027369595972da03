-- ===== src/RobotServer/Control.antt =====
-- `acquireControl`, `renewControl`, `releaseControl` and `retireNativeControl`
-- (src/common/src/robot_server.cpp).
use xgc2_ros1_adapter.Common.{
  ℕ, ◌*◌, ◌/◌, min, Bool, true, false, List, ◌∷◌, Option, none, some, ◌&&◌, ◌||◌, not, leb, ◌==◌,
  if◌then◌else◌, Bytes, length, contains,
}
use xgc2_ros1_adapter.Common.Int.{pos, pos_part, ltb_ℤ}
use xgc2_ros1_adapter.RobotServer.State.{
  invalid_argument, permission_denied, failed_precondition, resource_exhausted, Result, done,
  refused, ◌>>◌, require, MemberIdentity, valid_identity?, Member, Server, maximum_robots,
  minimum_control_heartbeat, maximum_control_heartbeat, controller_grant_locked, selected_member?,
  stream_ready, put,
}

pub record AcquireRequest : Type 0 where
  pub identity : Option MemberIdentity
  pub generation : ℕ
  pub controller_grant : Bytes

pub record AcquireResponse : Type 0 where
  pub identity : MemberIdentity
  pub generation : ℕ
  pub heartbeat_interval_ms : ℕ

-- The checks before the member is looked up.
unfoldable pub acquire_entry : Bool → AcquireRequest → Server → Result (Unit {0})
acquire_entry scope_cancelled r s = do
  require (valid_identity? r.identity && not (r.generation == 0)) invalid_argument
  require (controller_grant_locked r.controller_grant s) permission_denied
  require (not scope_cancelled && stream_ready s) failed_precondition

-- The checks under the second lock, up to the first write.
unfoldable pub acquire_admit : Bool → AcquireRequest → Member → Server → Result (Unit {0})
acquire_admit scope_cancelled r m s = do
  require (controller_grant_locked r.controller_grant s) permission_denied
  require (not scope_cancelled && (not m.closing && stream_ready s)) failed_precondition
  require
      (not (
        ltb_ℤ (pos 0) m.silence_limit
        && ltb_ℤ m.silence_limit (pos (3 * minimum_control_heartbeat))))
      failed_precondition
  require
      (m.control_owner == s.controller_generation
        || not (not (m.control_work == 0) || (m.control_held || m.potential_motion)))
      failed_precondition

-- A member of a controller that is gone passes to the current one.
unfoldable pub adopt : ℕ → Member → Member
adopt generation m = if m.control_owner == generation then m else (record m {
  control_owner = generation;
  control_generation = 0;
  retired_control_generation = 0;
  control_retiring = false;
})

unfoldable pub acquire_response : Member → AcquireResponse
acquire_response m = record {
  identity = m.identity;
  generation = m.control_generation;
  heartbeat_interval_ms =
      if ltb_ℤ (pos 0) m.silence_limit
      then min (pos_part m.silence_limit / 3) maximum_control_heartbeat
      else 0;
}

-- The member after `control_held = true`.
abbrev pub held_by : ℕ → ℕ → Member → Member
held_by now generation m = record m {
  control_generation = generation;
  control_held = true;
  control_retiring = false;
  control_heartbeat = now;
}

-- `control_members_[p] = p`: a map, so an address stands in it once.
abbrev pub add_control : ℕ → List ℕ → List ℕ
add_control p ps = if contains p ps then ps else p ∷ ps

unfoldable pub acquire_hold :
    (now : ℕ) → AcquireRequest → ℕ → Member → Server → Server × Result AcquireResponse
acquire_hold now r p m s =
    if m.control_held
    then (if m.control_retiring || not (r.generation == m.control_generation)
        then (s, refused failed_precondition)
        else (s, done (acquire_response m)))
    else (if leb r.generation m.retired_control_generation
        then (s, refused failed_precondition)
        else (if leb maximum_robots (length s.control_members) && not (contains p s.control_members)
            then (s, refused resource_exhausted)
            else (let m' = held_by now r.generation m in
                let t = record s { control_members = add_control p s.control_members } in
                (put p m' t, done (acquire_response m')))))

-- The section under the second lock.
unfoldable pub acquire_commit :
    (now : ℕ) (scope_cancelled : Bool)
    → AcquireRequest
    → ℕ
    → Server
    → Server × Result AcquireResponse
acquire_commit now scope_cancelled r p s =
    let m = s.object p in
    elim (acquire_admit scope_cancelled r m s) [
      | refused c ↦ (s, refused c)
      | done _ ↦ let m' = adopt s.controller_generation m in acquire_hold now r p m' (put p m' s)
    ]

-- `others` is what other threads do between the two locks, `late` whether the call is cancelled
-- by then.
unfoldable pub acquire_control :
    (now : ℕ) (scope_cancelled late : Bool) (others : Server → Server)
    → AcquireRequest
    → Server
    → Server × Result AcquireResponse
acquire_control now scope_cancelled late others r s = elim (acquire_entry scope_cancelled r s) [
  | refused c ↦ (s, refused c)
  | done _ ↦
      let t = others s in
      elim (selected_member? r.identity t) [
        | none ↦ (t, refused failed_precondition)
        | some p ↦ acquire_commit now late r p t
      ]
]
