-- ===== src/RobotServer/Controller.antt =====
-- `ownerAuthorized`, `installController` and `retireController` (src/common/src/robot_server.cpp):
-- the one controller of a server process.
use xgc2_ros1_adapter.Common.{
  ℕ, Bool, false, ◌∷◌, Option, none, some, ◌&&◌, ◌||◌, not, leb, ◌==◌, if◌then◌else◌, Bytes,
  bytes_eq, length, is_empty, all_digits,
}
use xgc2_ros1_adapter.Identifiers.{valid_reference_id}
use xgc2_ros1_adapter.RobotServer.State.{
  invalid_argument, permission_denied, failed_precondition, Result, done, refused, Binding, Server,
  secret_equal,
}

-- The peer of a native call over the accepted Unix socket is `fd:` and digits.
unfoldable pub unix_fd : Bytes → Bool
unfolding all_digits
unix_fd (c ∷ d ∷ e ∷ n ∷ rest) = c == b'f' && (d == b'd' && (e == b':' && all_digits (n ∷ rest)))
unix_fd _ = false

unfoldable pub owner_authorized : (peer presented : Bytes) → Server → Bool
unfolding unix_fd
owner_authorized peer presented s = unix_fd peer && secret_equal presented s.process_owner 32

pub record InstallRequest : Type 0 where
  pub process_owner : Bytes
  pub binding : Option Binding
  pub generation : ℕ
  pub open_id : Bytes
  pub controller_grant : Bytes

pub record Owner : Type 0 where
  pub generation : ℕ
  pub open_id : Bytes

-- The binding is of this instance, and names either no agent or the agent of this target.
unfoldable pub valid_binding : Binding → Server → Bool
valid_binding b s =
    bytes_eq b.provider_instance_id s.instance_id
    && (valid_reference_id b.core_id
        && (valid_reference_id b.core_boot_id
            && ((is_empty b.agent_id && is_empty b.agent_epoch_id)
                || (valid_reference_id b.agent_id
                    && (valid_reference_id b.agent_epoch_id && bytes_eq b.agent_id s.target_id)))))

unfoldable pub valid_binding? : Option Binding → Server → Bool
unfolding valid_binding
valid_binding? none s = false
valid_binding? (some b) s = valid_binding b s

-- `equals` is protobuf's `MessageDifferencer::Equals` on bindings.
unfoldable pub same_binding : (Binding → Binding → Bool) → Option Binding → Option Binding → Bool
same_binding equals none b = false
same_binding equals (some a) none = false
same_binding equals (some a) (some b) = equals a b

unfoldable pub same_owner : (Binding → Binding → Bool) → InstallRequest → Server → Bool
unfolding same_binding
same_owner equals r s =
    not s.controller_retiring
    && (r.generation == s.controller_generation
        && (bytes_eq r.open_id s.controller_open_id
            && (secret_equal r.controller_grant s.controller_grant 32
                && same_binding equals r.binding s.controller_binding)))

unfoldable pub install_owner : InstallRequest → Server → Server
install_owner r s = record s {
  controller_generation = r.generation;
  controller_open_id = r.open_id;
  controller_grant = r.controller_grant;
  controller_binding = r.binding;
}

abbrev pub owner_of : Server → Owner
owner_of s = record { generation = s.controller_generation; open_id = s.controller_open_id }

unfoldable pub install_well_formed : InstallRequest → Server → Bool
unfolding valid_binding?
install_well_formed r s =
    valid_binding? r.binding s
    && (not (r.generation == 0) && (length r.open_id == 16 && length r.controller_grant == 32))

unfoldable pub install_controller :
    (Binding → Binding → Bool) → (peer : Bytes) → InstallRequest → Server → Server × Result Owner
unfolding install_owner
install_controller equals peer r s =
    if not (owner_authorized peer r.process_owner s)
    then (s, refused permission_denied)
    else (if not (install_well_formed r s)
        then (s, refused invalid_argument)
        else (if not (s.controller_generation == 0)
            then (if same_owner equals r s
                then (s, done (owner_of s))
                else (s, refused failed_precondition))
            else (if leb r.generation s.retired_controller_generation
                then (s, refused failed_precondition)
                else (let t = install_owner r s in (t, done (owner_of t))))))
