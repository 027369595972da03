-- ===== src/RobotServer/Renewal.antt =====
-- `renewControl` and `memberSilence` (src/common/src/robot_server.cpp): the heartbeat of held
-- control and how long a member has been without one.
use xgc2_ros1_adapter.Common.{
  ℕ, ◌*◌, ◌/◌, ◌-◌, Bool, true, false, List, [], ◌∷◌, Option, none, some, ◌&&◌, ◌||◌, not, leb, ltb,
  ◌==◌, if◌then◌else◌, Bytes, bytes_eq, length, is_empty,
}
use xgc2_ros1_adapter.Common.Int.{pos, pos_part, ltb_ℤ}
use xgc2_ros1_adapter.RobotServer.State.{
  invalid_argument, permission_denied, failed_precondition, resource_exhausted, Result, done,
  refused, ◌>>=◌, ◌>>◌, require, MemberIdentity, valid_identity, Server, maximum_robots, ns_per_ms,
  minimum_control_renew_interval, controller_grant_locked, selected_member, stream_ready, put,
}

pub record Renewal : Type 0 where
  pub identity : Option MemberIdentity
  pub generation : ℕ

pub record RenewRequest : Type 0 where
  pub controller_grant : Bytes
  pub status_generation : ℕ
  pub status_open_id : Bytes
  pub members : List Renewal

-- One entry of the answer: the renewal it answers, and whether it took effect.
pub record Renewed : Type 0 where
  pub renewal : Renewal
  pub renewed : Bool

-- The control stream is the one that the caller names, and admits control.
abbrev pub named_stream_ready : RenewRequest → Server → Bool
named_stream_ready r s =
    stream_ready s
    && (s.control_status.generation == r.status_generation
        && bytes_eq s.control_status.open_id r.status_open_id)

-- `now - last_control_renewal_ < kMinimumControlRenewInterval`, of a renewal that took place.
unfoldable pub too_fast : (now : ℕ) → Option ℕ → Bool
too_fast now none = false
too_fast now (some last) = ltb (now - last) (minimum_control_renew_interval * ns_per_ms)

unfoldable pub renew_well_formed : RenewRequest → Bool
renew_well_formed r =
    not (r.status_generation == 0)
    && (length r.status_open_id == 16
        && (not (is_empty r.members) && leb (length r.members) maximum_robots))

unfoldable pub renew_entry : (now : ℕ) → Bool → RenewRequest → Server → Result (Unit {0})
unfolding renew_well_formed too_fast
renew_entry now scope_cancelled r s = do
  require (renew_well_formed r) invalid_argument
  require (controller_grant_locked r.controller_grant s) permission_denied
  require (not scope_cancelled && named_stream_ready r s) failed_precondition
  require (not (too_fast now s.last_control_renewal)) resource_exhausted

-- `ids.insert(robot_id).second` for each text in turn.
unfoldable pub seen_before : Bytes → List Bytes → Bool
seen_before id [] = false
seen_before id (x ∷ xs) = bytes_eq id x || seen_before id xs

-- The lookup of each renewal under the table lock: the address of the named incarnation, if it
-- is registered. A malformed or repeated entry refuses the batch.
unfoldable pub lookup_renewals :
    Server → List Bytes → List Renewal → Result (List (Renewal × Option ℕ))
unfolding seen_before
lookup_renewals s ids [] = done []
lookup_renewals s ids (r ∷ rest) = elim r.identity [
  | none ↦ refused invalid_argument
  | some id ↦ (do
    require (valid_identity id && (not (r.generation == 0) && not (seen_before id.robot_id ids)))
        invalid_argument
    later ← lookup_renewals s (id.robot_id ∷ ids) rest
    done ((r, selected_member id s) ∷ later))
]

-- Whether a renewal reaches control that is held now.
unfoldable pub renewal_current : ℕ → Renewal → Server → Bool
renewal_current p r s =
    let m = s.object p in
    not m.closing
    && (m.control_owner == s.controller_generation
        && (m.control_held
            && (not m.control_retiring
                && (m.control_generation == r.generation && ltb_ℤ (pos 0) m.silence_limit))))

unfoldable pub renew_one : (now : ℕ) → Renewal → Option ℕ → Server → Server × Renewed
unfolding renewal_current
renew_one now r none s = (s, record { renewal = r; renewed = false })
renew_one now r (some p) s =
    if renewal_current p r s
    then (
      put p (record (s.object p) { control_heartbeat = now }) s,
      record { renewal = r; renewed = true },
    )
    else (s, record { renewal = r; renewed = false })

unfoldable pub renew_each : (now : ℕ) → List (Renewal × Option ℕ) → Server → Server × List Renewed
unfolding renew_one
renew_each now [] s = (s, [])
renew_each now ((r, p) ∷ rest) s =
    let (t, entry) = renew_one now r p s in
    let (u, later) = renew_each now rest t in (u, entry ∷ later)

-- The checks of the commit, after the lookup.
unfoldable pub renew_admit : Bool → RenewRequest → Server → Result (Unit {0})
renew_admit scope_cancelled r s = do
  require (controller_grant_locked r.controller_grant s) permission_denied
  require (not scope_cancelled && named_stream_ready r s) failed_precondition

unfoldable pub renew_commit :
    (now : ℕ) (scope_cancelled : Bool)
    → RenewRequest
    → List (Renewal × Option ℕ)
    → Server
    → Server × Result (List Renewed)
renew_commit now scope_cancelled r found s = elim (renew_admit scope_cancelled r s) [
  | refused c ↦ (s, refused c)
  | done _ ↦ let (t, answers) = renew_each now found s in (t, done answers)
]

-- The first section: an admitted batch takes the rate edge, whatever becomes of it.
unfoldable pub renew_begin : (now : ℕ) → Bool → RenewRequest → Server → Server × Result (Unit {0})
unfolding renew_entry
renew_begin now scope_cancelled r s = elim (renew_entry now scope_cancelled r s) [
  | refused c ↦ (s, refused c)
  | done _ ↦ (record s { last_control_renewal = some now }, done tt)
]

-- `others` runs between the rate edge and the lookup, `others'` between the lookup and the commit.
unfoldable pub renew_control :
    (now later : ℕ) (scope_cancelled late : Bool) (others others' : Server → Server)
    → RenewRequest
    → Server
    → Server × Result (List Renewed)
renew_control now later scope_cancelled late others others' r s =
    let (v, begin) = renew_begin now scope_cancelled r s in
    elim begin [
      | refused c ↦ (v, refused c)
      | done _ ↦
          let t = others v in
          elim (lookup_renewals t [] r.members) [
            | refused c ↦ (t, refused c)
            | done found ↦ renew_commit later late r found (others' t)
          ]
    ]

-- The silence of a member in milliseconds, as its native dead-man is told.
unfoldable pub member_silence : (now : ℕ) → ℕ → Server → ℕ
member_silence now p s =
    let m = s.object p in
    if not m.potential_motion
    then 0
    else (if m.control_held
          && (m.control_owner == s.controller_generation
              && (not m.control_retiring && not s.controller_retiring))
        then (if ltb_ℤ (pos 0) m.silence_limit
            then (let age = (now - m.control_heartbeat) / ns_per_ms in
                if ltb age (pos_part m.silence_limit) then 0 else age)
            else 0)
        else ((now - m.silent_since) / ns_per_ms))
