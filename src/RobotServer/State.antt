-- ===== src/RobotServer/State.antt =====
-- The state of `RobotServer::Impl` that admission of control reads and writes
-- (src/common/src/robot_server.cpp). Objects behind a `shared_ptr` live at an address in `object`.
use xgc2_ros1_adapter.Common.{
  ◌≡◌, refl, ◌⊎◌, inl, inr, ℕ, Bool, true, false, List, [], ◌∷◌, Option, none, some, ◌&&◌, not,
  ◌==◌, if◌then◌else◌, Bytes, bytes_eq, length, take, update, is_some,
}
use xgc2_ros1_adapter.Common.Int.{ℤ}
use xgc2_ros1_adapter.Identifiers.{valid_reference_id, valid_robot_identity}

-- The status codes of gRPC that the handlers answer with; their texts are left out.
pub data Code : Type 0 where
  invalid_argument permission_denied failed_precondition resource_exhausted : Code
  cancelled deadline_exceeded unknown internal : Code

pub data Result {ℓ} (A : Type ℓ) : Type ℓ where
  done : A → Result A
  refused : Code → Result A

infixl 5 ◌>>=◌ ◌>>◌
abbrev pub ◌>>=◌ {ℓ κ} : {A : Type ℓ} {B : Type κ} → Result A → (A → Result B) → Result B
done a >>= f = f a
refused e >>= f = refused e

abbrev pub ◌>>◌ {ℓ} : {B : Type ℓ} → Result (Unit {0}) → Result B → Result B
m >> k = m >>= λ _. k

-- Goes on only if the test holds.
abbrev pub require : Bool → Code → Result (Unit {0})
require true e = done tt
require false e = refused e

-- To split on a result and keep the equation.
pub Result-cases {ℓ} :
    {A : Type ℓ} (r : Result A) → ((a : A) × (r ≡ done a)) ⊎ ((c : Code) × (r ≡ refused c))
Result-cases (done a) = inl (a, refl)
Result-cases (refused c) = inr (c, refl)

-- What a successful chain says of its parts.
pub >>=-eq-done {ℓ κ} :
    {A : Type ℓ} {B : Type κ} (m : Result A) (f : A → Result B) {b : B}
    → (m >>= f) ≡ done b
    → (a : A) × (m ≡ done a) × (f a ≡ done b)
>>=-eq-done (done a) f h = (a, refl, h)
>>=-eq-done (refused e) f h = cc

pub >>-eq-done {ℓ} :
    {B : Type ℓ} (t : Bool) (e : Code) (m : Result B) {b : B}
    → (require t e >> m) ≡ done b
    → m ≡ done b
>>-eq-done true e m h = h
>>-eq-done false e m h = cc

pub record MemberIdentity : Type 0 where
  pub target_id : Bytes
  pub run_id : Bytes
  pub robot_id : Bytes
  pub connection_epoch : ℕ

unfoldable pub same_identity : MemberIdentity → MemberIdentity → Bool
same_identity a b =
    bytes_eq a.target_id b.target_id
    && (bytes_eq a.run_id b.run_id
        && (bytes_eq a.robot_id b.robot_id && a.connection_epoch == b.connection_epoch))

unfoldable pub valid_identity : MemberIdentity → Bool
valid_identity id =
    valid_robot_identity id.robot_id
    && (valid_reference_id id.target_id
        && (valid_reference_id id.run_id && not (id.connection_epoch == 0)))

-- A field of message type may be absent.
unfoldable pub valid_identity? : Option MemberIdentity → Bool
valid_identity? none = false
valid_identity? (some id) = valid_identity id

-- A command of `Execute`: what the scheduler reads of the call and of its request, and what the
-- member's `NativeRobot` says of the operation. The deadline is in unix nanoseconds.
pub record Command : Type 0 where
  pub call : ℕ
  pub controller_grant : Bytes
  pub control_generation : ℕ
  pub deadline : ℕ
  pub call_cancelled : Bool
  pub is_safety_operation : Bool
  pub requires_control : Bool
  pub is_control_release : Bool

-- One robot. Times are nanoseconds on the steady clock; `silence_limit` is what the robot's
-- `ControlSilenceLimit` returns, in milliseconds.
pub record Member : Type 0 where
  pub identity : MemberIdentity
  pub silence_limit : ℤ
  pub closing : Bool
  pub native_stopped : Bool
  pub commands : List Command
  pub in_flight : Bool
  pub active_call : Option Command
  pub native_call : ℕ
  pub native_cancel_requested : Bool
  pub uncertain : Bool
  pub control_owner : ℕ
  pub control_generation : ℕ
  pub retired_control_generation : ℕ
  pub control_work : ℕ
  pub control_held : Bool
  pub control_retiring : Bool
  pub control_finishing : Bool
  pub control_release_waiting : Bool
  pub potential_motion : Bool
  pub silent_since : ℕ
  pub control_heartbeat : ℕ

-- A status stream that the controller owns.
pub record Slot : Type 0 where
  pub active : Option ℕ
  pub generation : ℕ
  pub retired_generation : ℕ
  pub open_id : Bytes
  pub retired_open_id : Bytes
  pub retiring : Bool
  pub ready : Bool

abbrev pub empty_slot : Slot
empty_slot = record {
  active = none;
  generation = 0;
  retired_generation = 0;
  open_id = [];
  retired_open_id = [];
  retiring = false;
  ready = false;
}

pub record Binding : Type 0 where
  pub agent_id : Bytes
  pub agent_epoch_id : Bytes
  pub provider_instance_id : Bytes
  pub core_id : Bytes
  pub core_boot_id : Bytes

pub record Server : Type 0 where
  pub process_owner : Bytes
  pub target_id : Bytes  -- of the options
  pub instance_id : Bytes  -- of the reference
  pub commands_closed : Bool
  pub object : ℕ → Member
  pub members : List (Bytes × ℕ)
  pub controller_generation : ℕ
  pub controller_open_id : Bytes
  pub controller_grant : Bytes
  pub controller_binding : Option Binding
  pub retired_controller_generation : ℕ
  pub retired_controller_open_id : Bytes
  pub controller_retiring : Bool
  pub controller_finishing : Bool
  pub controller_work : ℕ
  pub control_status : Slot
  pub optional_status : Slot
  pub control_members : List ℕ
  pub controller_calls : List ℕ
  pub last_control_renewal : Option ℕ

abbrev pub maximum_robots : ℕ
maximum_robots = 256

abbrev pub ns_per_ms : ℕ
ns_per_ms = 1_000_000

abbrev pub minimum_control_heartbeat : ℕ
minimum_control_heartbeat = 100

abbrev pub minimum_control_renew_interval : ℕ
minimum_control_renew_interval = 50

abbrev pub maximum_control_heartbeat : ℕ
maximum_control_heartbeat = 10_000

-- `secretEqual(value, expected, size)`: the length, then the first `size` bytes.
unfoldable pub secret_equal : Bytes → Bytes → ℕ → Bool
secret_equal value expected size = length value == size && bytes_eq value (take size expected)

unfoldable pub controller_credential : Bytes → Server → Bool
controller_credential grant s =
    not (s.controller_generation == 0) && secret_equal grant s.controller_grant 32

unfoldable pub controller_grant_locked : Bytes → Server → Bool
unfolding controller_credential
controller_grant_locked grant s = not s.controller_retiring && controller_credential grant s

-- `members_.find` by robot id.
unfoldable pub find_member : Bytes → List (Bytes × ℕ) → Option ℕ
find_member id [] = none
find_member id ((robot, p) ∷ rest) = if bytes_eq id robot then some p else find_member id rest

-- The address of the registered member, if it is the incarnation that the caller names.
unfoldable pub selected_member : MemberIdentity → Server → Option ℕ
unfolding find_member
selected_member identity s = elim (find_member identity.robot_id s.members) [
  | none ↦ none
  | some p ↦ if same_identity (s.object p).identity identity then some p else none
]

unfoldable pub selected_member? : Option MemberIdentity → Server → Option ℕ
selected_member? none s = none
selected_member? (some id) s = selected_member id s

-- Whether the required status stream admits control.
abbrev pub stream_ready : Server → Bool
stream_ready s =
    is_some s.control_status.active && (s.control_status.ready && not s.control_status.retiring)

-- Writes one member.
abbrev pub put : ℕ → Member → Server → Server
put p m s = record s { object = update s.object p m }
