-- ===== src/RobotServer/Release.antt =====
-- `releaseControl` and `retireNativeControl` (src/common/src/robot_server.cpp).
use xgc2_ros1_adapter.Common.{
  ℕ, ◌+◌, ◌-◌, Bool, true, false, Option, none, some, ◌&&◌, ◌||◌, not, ◌==◌, if◌then◌else◌, Bytes,
  erase,
}
use xgc2_ros1_adapter.RobotServer.State.{
  invalid_argument, permission_denied, failed_precondition, cancelled, deadline_exceeded, unknown,
  Result, done, refused, ◌>>◌, require, MemberIdentity, valid_identity?, Server,
  controller_credential, selected_member?, put,
}

pub record ReleaseRequest : Type 0 where
  pub identity : Option MemberIdentity
  pub generation : ℕ
  pub controller_grant : Bytes

-- The answer of a finished release; `joined` is always set.
pub record Joined : Type 0 where
  pub identity : MemberIdentity
  pub generation : ℕ

abbrev pub joined : ℕ → ℕ → Server → Result Joined
joined p generation s = done (record { identity = (s.object p).identity; generation = generation })

unfoldable pub release_entry : ReleaseRequest → Server → Result (Unit {0})
release_entry r s = do
  require (valid_identity? r.identity && not (r.generation == 0)) invalid_argument
  require (controller_credential r.controller_grant s) permission_denied

-- How the section that begins a release leaves it: answered, or waiting for admitted work.
pub data Begin : Type 0 where
  answered : Result Joined → Begin
  joining : Begin

abbrev pub begin_waiting : ℕ → ℕ → Server → Server
begin_waiting now p s =
    let m = s.object p in
    put p (record m { control_retiring = true; control_release_waiting = true; silent_since = now })
      (record s { controller_work = s.controller_work + 1 })

unfoldable pub release_begin :
    (now : ℕ) (scope_cancelled : Bool) → ReleaseRequest → ℕ → Server → Server × Begin
release_begin now scope_cancelled r p s =
    let m = s.object p in
    if not
      (controller_credential r.controller_grant s && m.control_owner == s.controller_generation)
    then (s, answered (refused permission_denied))
    else (if not m.control_held && r.generation == m.retired_control_generation
        then (s, answered (joined p r.generation s))
        else (if not m.control_held || not (r.generation == m.control_generation)
            then (s, answered (refused failed_precondition))
            else (if scope_cancelled
                then (s, answered (refused cancelled))
                else (if m.control_release_waiting || m.control_finishing
                    then (s, answered (refused failed_precondition))
                    else (begin_waiting now p s, joining)))))

-- `~ReleaseWait`.
unfoldable pub end_wait : ℕ → Server → Server
end_wait p s =
    put p (record (s.object p) { control_release_waiting = false })
      (record s { controller_work = s.controller_work - 1 })

-- What the wait is for; `wait_until` answers with this test when it returns.
abbrev pub release_joined : ℕ → Server → Bool
release_joined p s =
    let m = s.object p in not m.control_held || (m.control_work == 0 && not m.control_finishing)

-- `native_stopped || native->RetireControl(error)`; a throw counts as a failure.
unfoldable pub retire_native_control : ℕ → Bool → Server → Bool
retire_native_control p answer s = (s.object p).native_stopped || answer

unfoldable pub start_finishing : ℕ → Server → Server
start_finishing p s = put p (record (s.object p) { control_finishing = true }) s

-- After the native release: the member's control ends only if that succeeded.
unfoldable pub release_finish : Bool → ReleaseRequest → ℕ → Server → Server × Result Joined
release_finish success r p s =
    let m = s.object p in
    if not success
    then (put p (record m { control_finishing = false }) s, refused unknown)
    else (let t =
          put p
            (record m {
              control_finishing = false;
              potential_motion = false;
              control_held = false;
              retired_control_generation = m.control_generation;
              control_retiring = false;
            })
            (record s { control_members = erase p s.control_members }) in
        (t, joined p r.generation t))

-- The lock is given up for the native call; `others` is what happens meanwhile.
unfoldable pub release_native :
    (answer : Bool) (others : Server → Server)
    → ReleaseRequest
    → ℕ
    → Server
    → Server × Result Joined
release_native answer others r p s =
    let release = (s.object p).potential_motion in
    let t = others (start_finishing p s) in
    release_finish (if release then retire_native_control p answer t else true) r p t

-- From the end of the wait to the answer.
unfoldable pub release_after_wait :
    (answer : Bool) (others : Server → Server)
    → ReleaseRequest
    → ℕ
    → Server
    → Server × Result Joined
unfolding release_native
release_after_wait answer others r p s =
    if not (release_joined p s)
    then (s, refused deadline_exceeded)
    else (if not (s.object p).control_held
        then (if not (r.generation == (s.object p).retired_control_generation)
            then (s, refused failed_precondition)
            else (s, joined p r.generation s))
        else release_native answer others r p s)

-- What the environment answers during one call.
pub record Run : Type 0 where
  pub now : ℕ
  pub scope_cancelled : Bool
  pub before : Server → Server  -- between the credential check and the lock
  pub wait : Server → Server  -- while the caller waits for the admitted work
  pub meanwhile : Server → Server  -- during the native call
  pub answer : Bool  -- of `RetireControl`

unfoldable pub release_continue : Run → ReleaseRequest → ℕ → Begin → Server → Server × Result Joined
release_continue e r p (answered a) s = (s, a)
release_continue e r p joining s =
    let (t, a) = release_after_wait e.answer e.meanwhile r p (e.wait s) in (end_wait p t, a)

-- The part of a release under the lock, for the member at `p`.
unfoldable pub release_locked : Run → ReleaseRequest → ℕ → Server → Server × Result Joined
release_locked e r p s =
    let (t, begin) = release_begin e.now e.scope_cancelled r p s in release_continue e r p begin t

unfoldable pub release_control : Run → ReleaseRequest → Server → Server × Result Joined
release_control e r s = elim (release_entry r s) [
  | refused c ↦ (s, refused c)
  | done _ ↦
      let t = e.before s in
      elim (selected_member? r.identity t) [
        | none ↦ (t, refused failed_precondition)
        | some p ↦ release_locked e r p t
      ]
]
