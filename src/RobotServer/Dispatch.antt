-- ===== src/RobotServer/Dispatch.antt =====
-- `enqueue`, `dispatch` with its completion, and the dead-man section of `commandLoop`
-- (src/common/src/robot_server.cpp): which commands reach a robot.
use xgc2_ros1_adapter.Common.{
  ℕ, ◌+◌, ◌*◌, ◌-◌, Bool, true, false, List, [], ◌∷◌, ◌++◌, Option, none, some, ◌&&◌, ◌||◌, not,
  leb, ltb, ◌==◌, if◌then◌else◌, length,
}
use xgc2_ros1_adapter.Common.Int.{pos, pos_part, ltb_ℤ}
use xgc2_ros1_adapter.RobotServer.State.{
  MemberIdentity, Command, Member, Server, ns_per_ms, controller_grant_locked, selected_member,
  stream_ready, put,
}
use xgc2_ros1_adapter.RobotServer.Renewal.{member_silence}

abbrev pub maximum_commands_per_robot : ℕ
maximum_commands_per_robot = 32

-- Why a command was not executed: the error code of its answer.
pub data Reason : Type 0 where
  server_draining member_unavailable robot_queue_full previous_result_unknown : Reason
  operation_cancelled deadline_elapsed control_unavailable control_retiring : Reason

-- `none` is a command that waits in its member's queue.
unfoldable pub enqueue : MemberIdentity → Command → Server → Server × Option Reason
enqueue identity c s = elim (selected_member identity s) [
  | none ↦ (s, some (if s.commands_closed then server_draining else member_unavailable))
  | some p ↦
      let m = s.object p in
      if m.closing || s.commands_closed
      then (s, some (if s.commands_closed then server_draining else member_unavailable))
      else (if leb maximum_commands_per_robot (length m.commands)
          then (s, some robot_queue_full)
          else (put p (record m { commands = m.commands ++ c ∷ [] }) s, none))
]

-- Steady time and unix time at the dispatch.
pub record Clocks : Type 0 where
  pub steady : ℕ
  pub unix : ℕ

-- No heartbeat within the robot's own limit.
abbrev pub stale_heartbeat : ℕ → Member → Bool
stale_heartbeat now m =
    ltb_ℤ (pos 0) m.silence_limit
    && leb (pos_part m.silence_limit * ns_per_ms) (now - m.control_heartbeat)

-- What a motion needs: a current grant and stream, and control held at the named generation.
unfoldable pub control_available : (now : ℕ) → Command → Member → Server → Bool
control_available now c m s =
    controller_grant_locked c.controller_grant s
    && (stream_ready s
        && (m.control_held
            && (not m.control_retiring
                && (not m.closing
                    && (not (stale_heartbeat now m)
                        && (m.control_owner == s.controller_generation
                            && m.control_generation == c.control_generation))))))

abbrev pub owner_current : Member → Server → Bool
owner_current m s = m.control_owner == s.controller_generation && not (s.controller_generation == 0)

-- The command counts as control work, which a release or a retirement waits for.
abbrev pub counts_as_control : Command → Member → Server → Bool
counts_as_control c m s =
    c.requires_control || (c.is_control_release && (owner_current m s && m.control_held))

-- The guards of `dispatch` in order; `none` admits the command.
unfoldable pub refusal : Clocks → Command → Member → Server → Option Reason
unfolding control_available
refusal t c m s =
    if s.commands_closed
    then some server_draining
    else (if m.uncertain && not c.is_safety_operation
        then some previous_result_unknown
        else (if c.call_cancelled
            then some operation_cancelled
            else (if leb c.deadline t.unix
                then some deadline_elapsed
                else (if c.requires_control && not (control_available t.steady c m s)
                    then some control_unavailable
                    else (if c.is_control_release
                          && (owner_current m s && (m.control_finishing || m.control_retiring))
                        then some control_retiring
                        else none)))))

-- The native call starts; `handle` is what `Execute` returned.
unfoldable pub submit : (handle : ℕ) → Command → ℕ → Member → Server → Server
submit handle c p m s =
    let work = counts_as_control c m s in
    put p
      (record m {
        control_work = if work then m.control_work + 1 else m.control_work;
        potential_motion = c.requires_control || m.potential_motion;
        in_flight = true;
        active_call = some c;
        native_cancel_requested = false;
        native_call = handle;
      })
      (record s { controller_work = if work then s.controller_work + 1 else s.controller_work })

-- What became of a dispatch: the native lock was taken, the command was refused, or it runs.
pub data Dispatched : Type 0 where
  native_busy : Dispatched
  answered : Command → Reason → Dispatched
  running : Command → Dispatched

-- The command `c` has left the queue, and `rest` is behind it.
unfoldable pub dispatch_one :
    Clocks → (handle : ℕ) → Command → List Command → ℕ → Server → Server × Dispatched
dispatch_one t handle c rest p s =
    let m = record (s.object p) { commands = rest } in
    elim (refusal t c m s) [
      | some reason ↦ (put p m s, answered c reason)
      | none ↦ (submit handle c p m s, running c)
    ]

unfoldable pub dispatch_front :
    Clocks → (handle : ℕ) → List Command → ℕ → Server → Server × Dispatched
dispatch_front t handle [] p s = (s, native_busy)
dispatch_front t handle (c ∷ rest) p s = dispatch_one t handle c rest p s

-- Called by the scheduler for a member with a queued command and none in flight; `busy` is a
-- failed `try_lock` of the native mutex. `Execute` completes later, by `complete`.
unfoldable pub dispatch : Clocks → (busy : Bool) → (handle : ℕ) → ℕ → Server → Server × Dispatched
unfolding dispatch_front
dispatch t busy handle p s =
    if busy then (s, native_busy) else dispatch_front t handle (s.object p).commands p s

-- The result of a native call.
pub record Completion : Type 0 where
  pub phase_uncertain : Bool
  pub succeeded : Bool

-- The callback of `Execute`; `control_work` and `release` are those of the submission.
unfoldable pub complete : (control_work release : Bool) → Completion → ℕ → Server → Server
complete control_work release result p s =
    let m = s.object p in
    put p
      (record m {
        native_call = 0;
        active_call = none;
        in_flight = false;
        uncertain = result.phase_uncertain || m.uncertain;
        potential_motion =
            if control_work && (release && result.succeeded) then false else m.potential_motion;
        control_work = if control_work then m.control_work - 1 else m.control_work;
      })
      (record s {
        controller_work = if control_work then s.controller_work - 1 else s.controller_work;
      })

-- The periodic section: a robot that may move and is silent is told so, and `answer` is whether
-- its `CoreSilent` ended the motion.
unfoldable pub dead_man : (now : ℕ) → (answer : Bool) → ℕ → Server → Server
dead_man now answer p s =
    let m = s.object p in
    if not m.closing
      && (m.potential_motion && (ltb 0 (member_silence now p s) && (answer && m.control_work == 0)))
    then put p (record m { potential_motion = false }) s
    else s
