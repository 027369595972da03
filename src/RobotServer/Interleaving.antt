-- ===== src/RobotServer/Interleaving.antt =====
-- The critical sections of src/common/src/robot_server.cpp in any order: each handler's sections,
-- the status streams', the scheduler's, the table's and the drain's. A retirement keeps its list
-- of members between its sections.
use xgc2_ros1_adapter.Common.{
  ℕ, ◌≡◌, ◌≢◌, Bool, true, false, List, ◌∷◌, ◌&&◌, Option, none, some, if◌then◌else◌, Bytes,
}
use xgc2_ros1_adapter.RobotServer.State.{MemberIdentity, Command, Binding, Member, Server, put}
use xgc2_ros1_adapter.RobotServer.Control.{AcquireRequest, acquire_commit}
use xgc2_ros1_adapter.RobotServer.Renewal.{RenewRequest, Renewal, renew_begin, renew_commit}
use xgc2_ros1_adapter.RobotServer.Release.{
  ReleaseRequest, release_begin, start_finishing, release_finish, end_wait,
}
use xgc2_ros1_adapter.RobotServer.Controller.{InstallRequest, install_controller}
use xgc2_ros1_adapter.RobotServer.Retirement.{
  RetireRequest, calls_joined, names_controller, retire_begin, stop_finishing, retire_finish,
}
use xgc2_ros1_adapter.RobotServer.Dispatch.{
  Clocks, Completion, enqueue, dispatch, complete, dead_man,
}
use xgc2_ros1_adapter.RobotServer.Status.{
  StatusOwner, mark_control_down, admit_owned_status, ready_status, status_done, release_status,
  retire_status_begin,
}
use xgc2_ros1_adapter.RobotServer.Drain.{stop_native, stop_control}

-- The server, and the local state of a retirement between its sections: its request and `controls`.
pub record System : Type 0 where
  pub server : Server
  pub retirement : Option (RetireRequest × List ℕ)

-- A registered robot: a fresh object that holds no control, and its entry in the table.
abbrev publish : Bytes → ℕ → Member → Server → Server
publish robot p m s = put p m (record s { members = (robot, p) ∷ s.members })

abbrev close : ℕ → List (Bytes × ℕ) → Server → Server
close p table s = put p (record (s.object p) { closing = true }) (record s { members = table })

pub data Section : System → System → Type 0 where
  -- the handlers of a controller
  acquires :
      (a : System) (now : ℕ) (c : Bool) (r : AcquireRequest) (p : ℕ)
      → Section a (record a { server = (acquire_commit now c r p a.server).0 })
  begins_renewal :
      (a : System) (now : ℕ) (c : Bool) (r : RenewRequest)
      → Section a (record a { server = (renew_begin now c r a.server).0 })
  renews :
      (a : System) (now : ℕ) (c : Bool) (r : RenewRequest) (found : List (Renewal × Option ℕ))
      → Section a (record a { server = (renew_commit now c r found a.server).0 })
  begins_release :
      (a : System) (now : ℕ) (c : Bool) (r : ReleaseRequest) (p : ℕ)
      → Section a (record a { server = (release_begin now c r p a.server).0 })
  starts_native_release :
      (a : System) (p : ℕ) → Section a (record a { server = start_finishing p a.server })
  finishes_release :
      (a : System) (success : Bool) (r : ReleaseRequest) (p : ℕ)
      → Section a (record a { server = (release_finish success r p a.server).0 })
  ends_wait : (a : System) (p : ℕ) → Section a (record a { server = end_wait p a.server })
  -- its status streams
  admits_status :
      (a : System) (call : ℕ) (control known : Bool) (o : Option StatusOwner)
      → Section a (record a { server = (admit_owned_status call control known o a.server).0 })
  readies_status :
      (a : System) (call : ℕ) (control : Bool)
      → Section a (record a { server = (ready_status call control a.server).0 })
  ends_status :
      (a : System) (call : ℕ) (control : Bool)
      → Section a (record a { server = status_done call control a.server })
  releases_status :
      (a : System) (call : ℕ) (control : Bool)
      → Section a (record a { server = release_status call control a.server })
  retires_status :
      (a : System) (control : Bool) (o : StatusOwner)
      → Section a (record a { server = (retire_status_begin control o a.server).0 })
  finishes_server : (a : System) → Section a (record a { server = mark_control_down a.server })
  -- the process owner
  installs :
      (a : System) (equals : Binding → Binding → Bool) (peer : Bytes) (r : InstallRequest)
      → Section a (record a { server = (install_controller equals peer r a.server).0 })
  begins_retirement :
      (a : System) (peer : Bytes) (r : RetireRequest)
      → Section a (record a { server = (retire_begin peer r a.server).0 })
  collects_members :
      (a : System) (r : RetireRequest)
      → calls_joined a.server ≡ true
      → a.server.controller_generation ≢ 0
      → (names_controller r a.server && a.server.controller_retiring) ≡ true
      → Section a (record {
        server = record (a.server) { controller_finishing = true };
        retirement = some (r, a.server.control_members);
      })
  retires_member :
      (a : System) (p : ℕ) (released : Bool)
      → Section a (record a {
        server =
            put p
              (record (a.server.object p) {
                control_finishing = false;
                potential_motion = if released then false else (a.server.object p).potential_motion;
              })
              a.server;
      })
  abandons_retirement :
      (a : System) → Section a (record { server = stop_finishing a.server; retirement = none })
  finishes_retirement :
      (a : System) (now : ℕ) (r : RetireRequest) (controls : List ℕ)
      → a.retirement ≡ some (r, controls)
      → Section a (record { server = (retire_finish now r controls a.server).0; retirement = none })
  -- the scheduler
  enqueues :
      (a : System) (identity : MemberIdentity) (c : Command)
      → Section a (record a { server = (enqueue identity c a.server).0 })
  dispatches :
      (a : System) (t : Clocks) (busy : Bool) (handle p : ℕ)
      → Section a (record a { server = (dispatch t busy handle p a.server).0 })
  completes :
      (a : System) (work release : Bool) (result : Completion) (p : ℕ)
      → Section a (record a { server = complete work release result p a.server })
  watches :
      (a : System) (now : ℕ) (answer : Bool) (p : ℕ)
      → Section a (record a { server = dead_man now answer p a.server })
  -- the table of robots
  publishes :
      (a : System) (robot : Bytes) (p : ℕ) (m : Member)
      → m.control_held ≡ false
      → Section a (record a { server = publish robot p m a.server })
  closes :
      (a : System) (p : ℕ) (table : List (Bytes × ℕ))
      → Section a (record a { server = close p table a.server })
  -- the end of a robot, of which `RemoveMembers`, a late publication and the drain make use
  stops_native : (a : System) (p : ℕ) → Section a (record a { server = stop_native p a.server })
  stops_control : (a : System) (p : ℕ) → Section a (record a { server = stop_control p a.server })

pub data Reach (a : System) : System → Type 0 where
  here : Reach a a
  next : {b c : System} → Reach a b → Section b c → Reach a c
