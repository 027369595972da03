-- ===== src/LidarControl/Scenarios.antt =====
-- Tests of src/scene_ros1_adapter/src/lidar/control.cpp, and the theorems at concrete inputs.
use xgc2_ros1_adapter.Common.{
  ℕ, ◌≤◌, ◌≡◌, refl, Bool, true, false, List, [], ◌∷◌, some, none, arith, Bytes, codes, length,
  bytes_eq, contains, after_prefix, before_byte, after_byte, all_digits, decimal_from,
}
use xgc2_ros1_adapter.Common.Int.{pos}
use xgc2_ros1_adapter.LidarControl.State.{
  Control, initial_control, is_accepted, receipt, refused, receipt_of, complete, described,
}
use xgc2_ros1_adapter.LidarControl.Request.{
  Json, boolean, integer, object, end, member, get, post, Request, Configure, positive_integer,
  is_one_of, known_members, get_member, configure_of, parse_wait, cut_wait,
}
use xgc2_ros1_adapter.LidarControl.Handle.{
  World, find_operation, find_slot, still_there, describe, observe, cut_id, operation_route, admit,
  start, repeated, configure, handle,
}
use xgc2_ros1_adapter.LidarControl.Apply.{
  finish_all, post_failed, apply_next, apply_done, split_ready, expire_ready, stop_operations, stop,
  Section, handles, takes, applies, section, run_sections,
}
use xgc2_ros1_adapter.LidarControl.Invariant.{IsAccepted}
use xgc2_ros1_adapter.LidarControl.Sections.{initial_control-ControlValid}
use xgc2_ros1_adapter.LidarControl.Guarantee.{
  IsServed, accepted-IsServed, Round, apply_rounds, accepted_finished,
}
use xgc2_ros1_adapter.LidarControl.Replay.{configure_once}

lidar_code : Unit {0}
unfolding bytes_eq contains after_prefix before_byte after_byte all_digits decimal_from
    positive_integer is_one_of known_members get_member configure_of parse_wait cut_wait
    find_operation find_slot still_there describe observe cut_id operation_route start repeated
    configure handle finish_all post_failed apply_next apply_done split_ready expire_ready
    stop_operations stop section run_sections apply_rounds
lidar_code = tt

abbrev world : ℕ → World
world now = record { now = now; cancelled = λ r. false }

-- A configuration that expects a revision.
abbrev payload : (expected : ℕ) → (enabled : Bool) → Json
payload expected enabled = object (
    member (codes "expected_revision") (integer (pos expected)) (
      member (codes "configuration") (object (member (codes "enabled") (boolean enabled) end))
        (member (codes "operation_timeout_ms") (integer (pos 5)) end)))

abbrev asks : (id : ℕ) → (expected : ℕ) → (enabled : Bool) → Request
asks id expected enabled = record {
  method = post;
  target = codes "/v1/configure";
  request_id = id ∷ [];
  body = id ∷ expected ∷ [];
  parsed = some (payload expected enabled);
  deadline = 1000000000;
}

abbrev start_control : Control
start_control = initial_control true

-- Two configurations are accepted, and the first is applied.
abbrev history : List Section
history =
    handles (world 10) (asks 65 1 false) 1
    ∷ handles (world 11) (asks 66 2 true) 2
    ∷ takes
    ∷ applies 12 13 true
    ∷ []

abbrev now : Control
now = run_sections history start_control

applies_in_order :
    (now.applied_revision ≡ 2)
    × (now.applied ≡ false)
    × (now.desired ≡ true)
    × (now.pending ≡ 1 ∷ [])
    × (length now.replies ≡ 1)
unfolding lidar_code
applies_in_order = (refl, refl, refl, refl, refl)

-- The health of the service, a wait for its readiness, and an unknown query.
abbrev gets : Bytes → Request
gets target = record {
  method = get;
  target = target;
  request_id = 70 ∷ [];
  body = [];
  parsed = none;
  deadline = 1000000000;
}

describes :
    ((handle (world 1) (gets (codes "/v1/describe?wait_ready_ms=20")) 5 start_control).0.replies
      ≡ (5, described true) ∷ [])
    × ((handle (world 1) (gets (codes "/v1/describe?wait=20")) 5 start_control).0.replies
        ≡ (5, refused 400) ∷ [])
    × ((handle (world 1) (gets (codes "/v1/operations/x")) 5 start_control).0.replies
        ≡ (5, refused 404) ∷ [])
unfolding lidar_code
describes = (refl, refl, refl)

accepted-IsServed_example :
    ((i : ℕ) → IsAccepted i now → IsServed i now)
    × ((i : ℕ) → now.stopping ≡ true → ¬ IsAccepted i now)
    × (length now.pending ≤ 16)
    × (now.applied_revision ≤ now.desired_revision)
accepted-IsServed_example =
    accepted-IsServed true start_control history refl (refl, (refl, (tt, (tt, tt))))

abbrev rounds : List Round
rounds = record { now = 20; later = 21; returns = false } ∷ []

accepted_finished_example :
    ((apply_rounds rounds now).pending ≡ []) × ((i : ℕ) → ¬ IsAccepted i (apply_rounds rounds now))
unfolding lidar_code
accepted_finished_example =
    accepted_finished true start_control history rounds refl (refl, (refl, (tt, (tt, tt)))) refl
      refl (omega arith)

abbrev wanted : Configure
wanted = record { expected_revision = 1; enabled = false; operation_timeout_ms = 5 }

abbrev other : Configure
other = record { expected_revision = 1; enabled = true; operation_timeout_ms = 5 }

configure_once_example :
    let t = (configure (world 10) (asks 65 1 false) 1 start_control).0 in
    (i : ℕ) × (is_accepted (start_control.operations i).state ≡ false)
    × (t ≡ admit (world 10) (asks 65 1 false) 1 wanted i start_control)
    × (configure (world 11) (asks 65 1 false) 2 t
        ≡ (complete 2 (receipt 202 (receipt_of (t.operations i))) t, false))
    × (configure (world 11) (asks 66 1 true) 2 t ≡ (complete 2 (refused 409) t, false))
unfolding lidar_code
configure_once_example =
    configure_once (world 10) (world 11) (asks 65 1 false) (asks 66 1 true) 1 2 wanted other
      start_control (initial_control-ControlValid true) refl refl refl refl refl refl
      (λ e. omega (arith, e))
