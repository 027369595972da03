-- ===== src/RobotServer/Scenarios.antt =====
-- Tests of the handlers of src/common/src/robot_server.cpp, and the theorems at concrete inputs.
use xgc2_ros1_adapter.Common.{
  ℕ, ◌+◌, ◌*◌, ◌≤◌, ◌<◌, ◌≡◌, refl, ◌≢◌, ◌⊎◌, Bool, true, false, List, [], ◌∷◌, none, some, arith,
  Bytes, bytes_eq, contains, erase, length,
}
use xgc2_ros1_adapter.Common.Int.{pos}
use xgc2_ros1_adapter.Identifiers.{valid_reference_id, valid_robot_identity}
use xgc2_ros1_adapter.RobotServer.State.{
  Code, MemberIdentity, Command, Member, empty_slot, Binding, Server, done, refused, same_identity,
  valid_identity, valid_identity?, secret_equal, controller_credential, controller_grant_locked,
  ns_per_ms, find_member, selected_member, selected_member?,
}
use xgc2_ros1_adapter.RobotServer.Control.{
  AcquireRequest, acquire_entry, acquire_admit, adopt, acquire_response, acquire_hold,
  acquire_commit, acquire_control,
}
use xgc2_ros1_adapter.RobotServer.Renewal.{
  Renewal, RenewRequest, renew_well_formed, too_fast, renew_entry, renew_begin, seen_before,
  lookup_renewals, renewal_current, renew_one, renew_each, renew_admit, renew_commit, renew_control,
  member_silence,
}
use xgc2_ros1_adapter.RobotServer.Release.{
  ReleaseRequest, Run, release_entry, release_begin, end_wait, retire_native_control,
  start_finishing, release_finish, release_native, release_after_wait, release_continue,
  release_locked, release_control,
}
use xgc2_ros1_adapter.RobotServer.Controller.{
  InstallRequest, unix_fd, owner_authorized, valid_binding, valid_binding?, same_binding,
  same_owner, install_owner, install_well_formed, install_controller,
}
use xgc2_ros1_adapter.RobotServer.Retirement.{RetireRequest, give_up_one, give_up, retire_finish}
use xgc2_ros1_adapter.RobotServer.Dispatch.{
  Clocks, control_available, refusal, submit, dispatch_one, dispatch_front, dispatch,
}
use xgc2_ros1_adapter.RobotServer.Interleaving.{
  System, acquires, admits_status, readies_status, here, next,
}
use xgc2_ros1_adapter.RobotServer.Status.{
  StatusOwner, valid_status_owner, matches_predecessor, admit_owned_status, ready_status,
}
use xgc2_ros1_adapter.RobotServer.Rate.{renew_begin_apart}
use xgc2_ros1_adapter.RobotServer.Ownership.{held_by_controller}
use xgc2_ros1_adapter.RobotServer.Admission.{Granted, acquire_control-Granted}
use xgc2_ros1_adapter.RobotServer.Joining.{
  native_fails, NativeFailed, NativeReleased, release_native_outcome,
}
use xgc2_ros1_adapter.RobotServer.Safety.{Permitted, dispatch-Permitted, dispatch-member_silence}
use xgc2_ros1_adapter.RobotServer.Succession.{retire_finish_done, retire_finish-install_controller}

abbrev robot : MemberIdentity
robot = record {
  target_id = b't' ∷ [];
  run_id = b'r' ∷ [];
  robot_id = b'u' ∷ b'1' ∷ [];
  connection_epoch = 4;
}

abbrev idle_member : Member
idle_member = record {
  identity = robot;
  silence_limit = pos 600;
  closing = false;
  native_stopped = false;
  commands = [];
  in_flight = false;
  active_call = none;
  native_call = 0;
  native_cancel_requested = false;
  uncertain = false;
  control_owner = 0;
  control_generation = 0;
  retired_control_generation = 0;
  control_work = 0;
  control_held = false;
  control_retiring = false;
  control_finishing = false;
  control_release_waiting = false;
  potential_motion = false;
  silent_since = 0;
  control_heartbeat = 0;
}

-- 32 bytes.
abbrev grant : Bytes
grant =
    1 ∷ 2 ∷ 3 ∷ 4 ∷ 5 ∷ 6 ∷ 7 ∷ 8 ∷ 1 ∷ 2 ∷ 3 ∷ 4 ∷ 5 ∷ 6 ∷ 7 ∷ 8 ∷ 1 ∷ 2 ∷ 3 ∷ 4 ∷ 5 ∷ 6 ∷ 7 ∷ 8
    ∷ 1 ∷ 2 ∷ 3 ∷ 4 ∷ 5 ∷ 6 ∷ 7 ∷ 8 ∷ []

-- 16 bytes.
abbrev open_id : Bytes
open_id = 9 ∷ 9 ∷ 9 ∷ 9 ∷ 9 ∷ 9 ∷ 9 ∷ 9 ∷ 9 ∷ 9 ∷ 9 ∷ 9 ∷ 9 ∷ 9 ∷ 9 ∷ 9 ∷ []

-- Controller 3 is installed with a ready control stream; robot `u1` is registered at address 0.
abbrev serving : Server
serving = record {
  process_owner = grant;
  target_id = b't' ∷ [];
  instance_id = b'i' ∷ [];
  commands_closed = false;
  object = λ p. idle_member;
  members = (b'u' ∷ b'1' ∷ [], 0) ∷ [];
  controller_generation = 3;
  controller_open_id = open_id;
  controller_grant = grant;
  controller_binding = none;
  retired_controller_generation = 2;
  retired_controller_open_id = [];
  controller_retiring = false;
  controller_finishing = false;
  controller_work = 0;
  control_status = record empty_slot {
    active = some 1;
    generation = 5;
    open_id = open_id;
    ready = true;
  };
  optional_status = empty_slot;
  control_members = [];
  controller_calls = [];
  last_control_renewal = none;
}

abbrev acquire_request : AcquireRequest
acquire_request = record { identity = some robot; generation = 7; controller_grant = grant }

abbrev acquired : Server
acquired = (acquire_control 10 false false (λ s. s) acquire_request serving).0

-- The definitions that the runs below compute with.
handlers : Unit {0}
unfolding acquire_control acquire_entry valid_identity? valid_identity valid_robot_identity
    valid_reference_id controller_grant_locked controller_credential secret_equal bytes_eq
    selected_member? selected_member find_member same_identity acquire_commit acquire_admit adopt
    acquire_hold acquire_response contains erase valid_status_owner matches_predecessor
    admit_owned_status ready_status renew_control renew_begin renew_entry renew_well_formed too_fast
    lookup_renewals seen_before renew_admit renew_commit renew_each renew_one renewal_current
    release_control release_entry release_locked release_begin release_continue release_after_wait
    release_native start_finishing retire_native_control release_finish end_wait install_controller
    owner_authorized unix_fd valid_binding? valid_binding install_well_formed same_owner
    same_binding install_owner retire_finish give_up give_up_one dispatch dispatch_front
    dispatch_one refusal control_available submit member_silence
handlers = tt

abbrev no_others : Server → Server
no_others s = s

acquire_test :
    (acquire_control 10 false false no_others acquire_request serving).1
    ≡ done (record { identity = robot; generation = 7; heartbeat_interval_ms = 200 })
unfolding handlers
acquire_test = refl

acquire_control-Granted_example :
    (p : ℕ) × (selected_member? (some robot) serving ≡ some p)
    × Granted 10 acquire_request p (serving.object p) acquired
    × ◌≡◌ {A = ℕ} 7 7
unfolding handlers
acquire_control-Granted_example =
    acquire_control-Granted 10 false false no_others acquire_request serving acquired
      (record { identity = robot; generation = 7; heartbeat_interval_ms = 200 }) refl

abbrev fresh_system : System
fresh_system = record { server = serving; retirement = none }

-- No status stream is open yet.
abbrev silent_system : System
silent_system = record {
  server = record serving { control_status = empty_slot };
  retirement = none;
}

abbrev stream : StatusOwner
stream = record {
  controller_grant = grant;
  generation = 5;
  open_id = open_id;
  predecessor_generation = 0;
  predecessor_open_id = [];
}

abbrev opened : Server
opened = (admit_owned_status 1 true true (some stream) silent_system.server).0

abbrev streaming : Server
streaming = (ready_status 1 true opened).0

abbrev acquired_server : Server
acquired_server = (acquire_commit 10 false acquire_request 0 streaming).0

held_by_controller_example :
    ((acquired_server.object 0).control_owner ≡ acquired_server.controller_generation)
    × (acquired_server.controller_generation ≢ 0)
    × ((acquired_server.object 0).retired_control_generation
        < (acquired_server.object 0).control_generation)
    × (contains 0 acquired_server.control_members ≡ true)
    × (length acquired_server.control_members ≤ 256)
unfolding handlers
held_by_controller_example =
    held_by_controller 0 (record { unheld = λ p. refl; no_controls = refl; no_retirement = refl })
      (next
        (next (next here (admits_status silent_system 1 true true (some stream)))
          (readies_status (record { server = opened; retirement = none }) 1 true))
        (acquires (record { server = streaming; retirement = none }) 10 false acquire_request 0))
      refl

abbrev release_request : ReleaseRequest
release_request = record { identity = some robot; generation = 7; controller_grant = grant }

abbrev quiet : Run
quiet = record {
  now = 20;
  scope_cancelled = false;
  before = no_others;
  wait = no_others;
  meanwhile = no_others;
  answer = true;
}

abbrev released : Server
released = (release_control quiet release_request acquired).0

-- The robot refuses to stop.
abbrev moving : Server
moving = record acquired { object = λ p. record (acquired.object p) { potential_motion = true } }

release_native_outcome_example :
    ((native_fails false 0 moving (start_finishing 0 moving) ≡ true)
      × NativeFailed 0
          (start_finishing 0 moving)
          (release_native false no_others release_request 0 moving))
    ⊎ ((native_fails false 0 moving (start_finishing 0 moving) ≡ false)
        × NativeReleased 0
            (start_finishing 0 moving)
            (release_native false no_others release_request 0 moving))
release_native_outcome_example = release_native_outcome false no_others release_request 0 moving

abbrev forward : Command
forward = record {
  call = 1;
  controller_grant = grant;
  control_generation = 7;
  deadline = 1000;
  call_cancelled = false;
  is_safety_operation = false;
  requires_control = true;
  is_control_release = false;
}

abbrev queued : Server
queued = record acquired { object = λ p. record (acquired.object p) { commands = forward ∷ [] } }

abbrev soon : Clocks
soon = record { steady = 30; unix = 40 }

dispatch-Permitted_example :
    let u = (dispatch soon false 9 0 queued).0 in
    (rest : List Command) × ((queued.object 0).commands ≡ forward ∷ rest)
    × Permitted 30 forward (queued.object 0) queued
    × ((u.object 0).potential_motion ≡ true)
    × ((u.object 0).control_work ≡ (queued.object 0).control_work + 1)
    × (u.controller_work ≡ queued.controller_work + 1)
unfolding handlers
dispatch-Permitted_example = dispatch-Permitted soon false 9 0 queued forward refl refl

dispatch-member_silence_example : member_silence 30 0 (dispatch soon false 9 0 queued).0 ≡ 0
unfolding handlers
dispatch-member_silence_example = dispatch-member_silence soon false 9 0 queued forward refl refl

-- 700 ms after the last heartbeat, with a limit of 600 ms.
abbrev late : Clocks
late = record { steady = 700_000_010; unix = 40 }

abbrev renew_request : RenewRequest
renew_request = record {
  controller_grant = grant;
  status_generation = 5;
  status_open_id = open_id;
  members = record { identity = some robot; generation = 7 } ∷ [];
}

abbrev renewed : Server
renewed = (renew_control 500 600 false false no_others no_others renew_request acquired).0

abbrev limited : Server
limited = record serving { last_control_renewal = some 500 }

abbrev limited_acquired : Server
limited_acquired = (acquire_commit 510 false acquire_request 0 limited).0

renew_begin_apart_example : 500 + 50 * ns_per_ms ≤ 50_000_600
unfolding handlers
renew_begin_apart_example =
    renew_begin_apart {b = fresh_system} 500 50_000_600 false false renew_request renew_request
      limited (record limited_acquired { last_control_renewal = some 50_000_600 })
      (record { unheld = λ p. refl; no_controls = refl; no_retirement = refl }) here refl
      (next here
        (acquires (record { server = limited; retirement = none }) 510 false acquire_request 0))
      refl refl

abbrev core_binding : Binding
core_binding = record {
  agent_id = [];
  agent_epoch_id = [];
  provider_instance_id = b'i' ∷ [];
  core_id = b'c' ∷ [];
  core_boot_id = b'b' ∷ [];
}

abbrev all_equal : Binding → Binding → Bool
all_equal a b = true

-- `fd:7`.
abbrev peer : Bytes
peer = b'f' ∷ b'd' ∷ b':' ∷ b'7' ∷ []

abbrev install_request : ℕ → InstallRequest
install_request g = record {
  process_owner = grant;
  binding = some core_binding;
  generation = g;
  open_id = open_id;
  controller_grant = grant;
}

abbrev bound : Server
bound = record serving { controller_binding = some core_binding }

abbrev retire_request : RetireRequest
retire_request = record { process_owner = grant; generation = 3; open_id = open_id }

abbrev retired : Server
retired = (retire_finish 50 retire_request (0 ∷ []) acquired).0

retire_finish_done_example :
    (retired.controller_generation ≡ 0)
    × (retired.retired_controller_generation ≡ acquired.controller_generation)
    × (controller_credential grant retired ≡ false)
    × ((retired.object 0).control_held ≡ false)
unfolding handlers
retire_finish_done_example =
    retire_finish_done 50 retire_request (0 ∷ []) acquired retired
      (record { generation = 3; open_id = open_id }) grant 0 refl refl refl

retire_finish-install_controller_example :
    (x : Code) × (install_controller all_equal peer (install_request 3) retired
      ≡ (retired, refused x))
unfolding handlers
retire_finish-install_controller_example =
    retire_finish-install_controller all_equal peer 50 retire_request (0 ∷ []) acquired retired
      (record { generation = 3; open_id = open_id }) (install_request 3) refl (omega arith)
