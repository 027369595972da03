-- ===== src/RobotServer/Status.antt =====
-- The status streams that a controller owns (src/common/src/robot_server.cpp): `admitOwnedStatus`,
-- the receipt of `subscribe`, `releaseStatus`, `retireStatus` and the sections that mark the control
-- stream down. A `StatusCall` is a number. `known` is whether `status_calls_` still has the call.
use xgc2_ros1_adapter.Common.{
  ℕ, Bool, true, false, [], ◌∷◌, Option, none, some, ◌&&◌, ◌||◌, not, ltb, ◌==◌, if◌then◌else◌,
  Bytes, bytes_eq, length, is_empty, is_some, erase,
}
use xgc2_ros1_adapter.RobotServer.State.{
  invalid_argument, permission_denied, failed_precondition, deadline_exceeded, internal, cancelled,
  Result, done, refused, Slot, Server, controller_grant_locked,
}

pub record StatusOwner : Type 0 where
  pub controller_grant : Bytes
  pub generation : ℕ
  pub open_id : Bytes
  pub predecessor_generation : ℕ
  pub predecessor_open_id : Bytes

unfoldable pub valid_status_owner : StatusOwner → Bool
valid_status_owner o =
    length o.controller_grant == 32
    && (not (o.generation == 0)
        && (length o.open_id == 16
            && ((o.predecessor_generation == 0 && is_empty o.predecessor_open_id)
                || (not (o.predecessor_generation == 0) && length o.predecessor_open_id == 16))))

unfoldable pub matches_predecessor : StatusOwner → Slot → Bool
matches_predecessor o slot =
    o.predecessor_generation == slot.retired_generation
    && bytes_eq o.predecessor_open_id slot.retired_open_id

-- The slot that a call uses: the control stream's, or the optional one.
abbrev pub status_slot : (control : Bool) → Server → Slot
status_slot true s = s.control_status
status_slot false s = s.optional_status

abbrev pub put_slot : (control : Bool) → Slot → Server → Server
put_slot true slot s = record s { control_status = slot }
put_slot false slot s = record s { optional_status = slot }

-- `markControlDownLocked`.
abbrev pub mark_control_down : Server → Server
mark_control_down s = record s { control_status = record (s.control_status) { ready = false } }

abbrev pub is_active : ℕ → Slot → Bool
is_active call slot = elim slot.active [ none ↦ false | some c ↦ c == call ]

abbrev slot_admits : StatusOwner → Slot → Bool
slot_admits o slot = matches_predecessor o slot && ltb slot.retired_generation o.generation

abbrev admit_status : (call : ℕ) (control : Bool) → StatusOwner → Server → Server
admit_status call control o s =
    put_slot control
      (record (status_slot control s) {
        active = some call;
        generation = o.generation;
        open_id = o.open_id;
        retiring = false;
        ready = false;
      })
      (record s { controller_calls = call ∷ s.controller_calls })

-- The flag is whether the call is owned.
unfoldable pub admit_owned_status :
    (call : ℕ) (control known : Bool) → Option StatusOwner → Server → Server × Result Bool
unfolding valid_status_owner matches_predecessor
admit_owned_status call control known none s =
    (s, if control then refused invalid_argument else done false)
admit_owned_status call control known (some o) s =
    if not (valid_status_owner o)
    then (s, refused invalid_argument)
    else (if not known
        then (s, refused internal)
        else (if not (controller_grant_locked o.controller_grant s)
            then (s, refused permission_denied)
            else (if is_some (status_slot control s).active
                then (s, refused failed_precondition)
                else (if not (slot_admits o (status_slot control s))
                    then (s, refused failed_precondition)
                    else (admit_status call control o s, done true)))))

-- The section of `subscribe` before the receipt: the stream becomes ready.
unfoldable pub ready_status : (call : ℕ) (control : Bool) → Server → Server × Result (Unit {0})
ready_status call control s =
    let slot = status_slot control s in
    if not (is_active call slot) || (slot.retiring || s.controller_retiring)
    then (s, refused cancelled)
    else (put_slot control (record slot { ready = true }) s, done tt)

-- gRPC is done with an owned call.
unfoldable pub status_done : (call : ℕ) (control : Bool) → Server → Server
status_done call control s =
    if control && is_active call s.control_status then mark_control_down s else s

-- `releaseStatus` of an owned call.
unfoldable pub release_status : (call : ℕ) (control : Bool) → Server → Server
release_status call control s =
    let slot = status_slot control s in
    let t =
      if is_active call slot
      then put_slot control
          (record slot {
            active = none;
            generation = 0;
            retired_generation = slot.generation;
            open_id = [];
            retired_open_id = slot.open_id;
            retiring = false;
            ready = false;
          })
          s
      else s in
    record t { controller_calls = erase call t.controller_calls }

abbrev names_open : StatusOwner → Slot → Bool
names_open o slot = slot.generation == o.generation && bytes_eq slot.open_id o.open_id

abbrev names_retired_open : StatusOwner → Slot → Bool
names_retired_open o slot =
    slot.retired_generation == o.generation && bytes_eq slot.retired_open_id o.open_id

-- What the first section of `retireStatus` does to the slot: it retires the open stream, or fences
-- one that was not admitted.
abbrev retire_slot : StatusOwner → Slot → Slot
retire_slot o slot =
    if is_some slot.active
    then (if names_open o slot && matches_predecessor o slot
        then record slot { retiring = true; ready = false }
        else slot)
    else (if slot_admits o slot
        then record slot { retired_generation = o.generation; retired_open_id = o.open_id }
        else slot)

unfoldable pub retire_status_begin :
    (control : Bool) → StatusOwner → Server → Server × Result (Unit {0})
unfolding valid_status_owner matches_predecessor
retire_status_begin control o s =
    if not (valid_status_owner o)
    then (s, refused invalid_argument)
    else (if not (controller_grant_locked o.controller_grant s)
        then (s, refused permission_denied)
        else (put_slot control (retire_slot o (status_slot control s)) s, done tt))

-- What the wait is for, which follows only where an open stream retires.
abbrev stream_joined : StatusOwner → Slot → Bool
stream_joined o slot = not (is_some slot.active && names_open o slot)

abbrev waits : StatusOwner → Slot → Bool
waits o slot = is_some slot.active && (names_open o slot && matches_predecessor o slot)

-- `others` runs while the stream is cancelled and joins.
unfoldable pub retire_status :
    (others : Server → Server) (control : Bool) → StatusOwner → Server → Server × Result (Unit {0})
unfolding retire_status_begin matches_predecessor
retire_status others control o s =
    let (t, begin) = retire_status_begin control o s in
    let u = if waits o (status_slot control s) then others t else t in
    let slot = status_slot control u in
    elim begin [
      | refused c ↦ (t, refused c)
      | done _ ↦
          if waits o (status_slot control s) && not (stream_joined o slot)
          then (u, refused deadline_exceeded)
          else (if names_retired_open o slot
              then (u, done tt)
              else (u, refused failed_precondition))
    ]
