-- ===== src/RobotServer/Drain.antt =====
-- `stopMember` (src/common/src/robot_server.cpp), which ends a member that is removed, drained or
-- published too late: its two critical sections. The native robot is there.
use xgc2_ros1_adapter.Common.{ℕ, true, false, erase}
use xgc2_ros1_adapter.RobotServer.State.{Server, put}

-- Under the native mutex; `Stop` is called unless it was.
unfoldable pub stop_native : ℕ → Server → Server
stop_native p s = put p (record (s.object p) { native_stopped = true }) s

-- Under the controller mutex.
unfoldable pub stop_control : ℕ → Server → Server
stop_control p s =
    let m = s.object p in
    put p
      (record m {
        potential_motion = false;
        control_held = false;
        retired_control_generation = m.control_generation;
      })
      (record s { control_members = erase p s.control_members })

unfoldable pub stop_member : (others : Server → Server) → ℕ → Server → Server
unfolding stop_native stop_control
stop_member others p s = stop_control p (others (stop_native p s))
