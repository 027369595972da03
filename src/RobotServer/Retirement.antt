-- ===== src/RobotServer/Retirement.antt =====
-- `retireController` (src/common/src/robot_server.cpp): the controller's calls are cancelled, every
-- robot that may still move is released natively, and only then its members are given up.
use xgc2_ros1_adapter.Common.{
  ℕ, Bool, true, false, List, [], ◌∷◌, none, ◌&&◌, ◌||◌, not, ◌==◌, if◌then◌else◌, Bytes, bytes_eq,
  length, is_empty, erase,
}
use xgc2_ros1_adapter.RobotServer.State.{
  invalid_argument, permission_denied, failed_precondition, deadline_exceeded, unknown, Result,
  done, refused, Member, Server, empty_slot, put,
}
use xgc2_ros1_adapter.RobotServer.Release.{retire_native_control, start_finishing}
use xgc2_ros1_adapter.RobotServer.Controller.{Owner, owner_authorized}

pub record RetireRequest : Type 0 where
  pub process_owner : Bytes
  pub generation : ℕ
  pub open_id : Bytes

abbrev pub owner_named : RetireRequest → Owner
owner_named r = record { generation = r.generation; open_id = r.open_id }

abbrev pub names_controller : RetireRequest → Server → Bool
names_controller r s =
    r.generation == s.controller_generation && bytes_eq r.open_id s.controller_open_id

abbrev pub names_retired : RetireRequest → Server → Bool
names_retired r s =
    r.generation == s.retired_controller_generation
    && bytes_eq r.open_id s.retired_controller_open_id

-- How the first section leaves a retirement: answered, or waiting for the owner's calls and work.
pub data Begin : Type 0 where
  answered : Result Owner → Begin
  joining : Begin

abbrev pub mark_retiring : Server → Server
mark_retiring s = record s {
  controller_retiring = true;
  control_status = record (s.control_status) { ready = false };
}

unfoldable pub retire_begin : (peer : Bytes) → RetireRequest → Server → Server × Begin
retire_begin peer r s =
    if not (owner_authorized peer r.process_owner s)
    then (s, answered (refused permission_denied))
    else (if r.generation == 0 || not (length r.open_id == 16)
        then (s, answered (refused invalid_argument))
        else (if s.controller_generation == 0 && names_retired r s
            then (s, answered (done (owner_named r)))
            else (if not (names_controller r s)
                then (s, answered (refused failed_precondition))
                else (mark_retiring s, joining))))

abbrev pub calls_joined : Server → Bool
calls_joined s =
    s.controller_generation == 0
    || (is_empty s.controller_calls && (s.controller_work == 0 && not s.controller_finishing))

-- The wait before the native release of one member.
abbrev pub member_joined : ℕ → ℕ → Server → Bool
member_joined generation p s =
    let m = s.object p in
    not (m.control_owner == generation)
    || (not m.potential_motion
        || (m.control_work == 0 && (not m.control_release_waiting && not m.control_finishing)))

abbrev pub stop_finishing : Server → Server
stop_finishing s = record s { controller_finishing = false }

-- What the environment does around the native release of one member.
pub record MemberRun : Type 0 where
  pub wait : Server → Server
  pub meanwhile : Server → Server
  pub answer : Bool

-- The release of one member: `done` goes on with the next.
unfoldable pub release_member : MemberRun → ℕ → ℕ → Server → Server × Result (Unit {0})
unfolding retire_native_control start_finishing
release_member e generation p s' =
    let s = e.wait s' in
    if not (member_joined generation p s)
    then (stop_finishing s, refused deadline_exceeded)
    else (if not ((s.object p).control_owner == generation) || not (s.object p).potential_motion
        then (s, done tt)
        else (let t = e.meanwhile (start_finishing p s) in
            let released = retire_native_control p e.answer t in
            let m = t.object p in
            if released
            then (
              put p (record m { control_finishing = false; potential_motion = false }) t,
              done tt,
            )
            else (
              stop_finishing (put p (record m { control_finishing = false }) t),
              refused unknown,
            )))

unfoldable pub release_members : (ℕ → MemberRun) → ℕ → List ℕ → Server → Server × Result (Unit {0})
release_members e generation [] s = (s, done tt)
release_members e generation (p ∷ ps) s =
    let (t, one) = release_member (e p) generation p s in
    let rest = release_members e generation ps t in
    elim one [ refused c ↦ (t, refused c) | done _ ↦ rest ]

-- The member gives its control up with the controller's generation.
abbrev pub given_up : (now : ℕ) → Member → Member
given_up now m = record m {
  control_held = false;
  control_retiring = false;
  retired_control_generation = m.control_generation;
  silent_since = now;
}

unfoldable pub give_up_one : (now generation : ℕ) → ℕ → Server → Server
give_up_one now generation p s =
    if (s.object p).control_owner == generation
    then put p (given_up now (s.object p))
        (record s { control_members = erase p s.control_members })
    else s

unfoldable pub give_up : (now generation : ℕ) → List ℕ → Server → Server
unfolding give_up_one
give_up now generation [] s = s
give_up now generation (p ∷ ps) s = give_up now generation ps (give_up_one now generation p s)

abbrev pub forget_owner : Server → Server
forget_owner s = record s {
  retired_controller_generation = s.controller_generation;
  retired_controller_open_id = s.controller_open_id;
  controller_generation = 0;
  controller_open_id = [];
  controller_grant = [];
  controller_binding = none;
  controller_retiring = false;
  controller_finishing = false;
  optional_status = empty_slot;
  control_status = empty_slot;
  last_control_renewal = none;
}

-- The last section: independent work has ended, and the owner goes.
unfoldable pub retire_finish : (now : ℕ) → RetireRequest → List ℕ → Server → Server × Result Owner
unfolding give_up
retire_finish now r controls s =
    if not (s.controller_work == 0)
    then (stop_finishing s, refused deadline_exceeded)
    else (forget_owner (give_up now r.generation controls s), done (owner_named r))

pub record Run : Type 0 where
  pub now : ℕ
  pub wait : Server → Server  -- for the owner's calls and work
  pub release : ℕ → MemberRun  -- around the release of each member
  pub last : Server → Server  -- for work that is left after the releases

unfoldable pub retire_after_wait : Run → RetireRequest → Server → Server × Result Owner
unfolding release_members retire_finish
retire_after_wait e r s =
    if not (calls_joined s)
    then (s, refused deadline_exceeded)
    else (if s.controller_generation == 0
        then (if names_retired r s
            then (s, done (owner_named r))
            else (s, refused failed_precondition))
        else (if not (names_controller r s && s.controller_retiring)
            then (s, refused failed_precondition)
            else (let controls = s.control_members in
                let (t, all) =
                  release_members e.release r.generation controls
                    (record s { controller_finishing = true }) in
                elim all [
                  | refused c ↦ (t, refused c)
                  | done _ ↦ retire_finish e.now r controls (e.last t)
                ])))

unfoldable pub retire_controller :
    Run → (peer : Bytes) → RetireRequest → Server → Server × Result Owner
unfolding retire_begin retire_after_wait
retire_controller e peer r s =
    let (t, begin) = retire_begin peer r s in
    elim begin [ answered a ↦ (t, a) | joining ↦ retire_after_wait e r (e.wait t) ]
