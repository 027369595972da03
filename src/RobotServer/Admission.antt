-- ===== src/RobotServer/Admission.antt =====
-- What an answer of `acquireControl` and `releaseControl` (src/common/src/robot_server.cpp) is worth.
use xgc2_ros1_adapter.Common.{
  ℕ, ◌≡◌, ◌⊎◌, inl, inr, Bool, true, false, some, arith, Option-cases, update_self,
}
use xgc2_ros1_adapter.RobotServer.State.{
  Result-cases, done, Member, Server, controller_grant_locked, stream_ready, selected_member?, put,
}
use xgc2_ros1_adapter.RobotServer.Control.{
  AcquireRequest, AcquireResponse, acquire_entry, acquire_admit, adopt, acquire_response,
  acquire_hold, acquire_commit, acquire_control,
}

-- Control that the caller holds after a successful answer; `m` is the member before the section.
pub record Granted (now : ℕ) (r : AcquireRequest) (p : ℕ) (m : Member) (t : Server) : Type 0 where
  pub held : (t.object p).control_held ≡ true
  pub owned : (t.object p).control_owner ≡ t.controller_generation
  pub generation : (t.object p).control_generation ≡ r.generation
  pub live : (t.object p).control_retiring ≡ false
  pub granted : controller_grant_locked r.controller_grant t ≡ true
  pub ready : stream_ready t ≡ true
  pub beat : ((m.control_held ≡ true) × (t.object p ≡ m)) ⊎ ((t.object p).control_heartbeat ≡ now)

acquire_hold-Granted :
    (now : ℕ) (r : AcquireRequest) (p : ℕ) (m : Member) (s t : Server) (a : AcquireResponse)
    → s.object p ≡ m
    → m.control_owner ≡ s.controller_generation
    → controller_grant_locked r.controller_grant s ≡ true
    → stream_ready s ≡ true
    → acquire_hold now r p m s ≡ (t, done a)
    → Granted now r p m t × (a.generation ≡ r.generation)
unfolding acquire_hold acquire_response controller_grant_locked
acquire_hold-Granted now r p m s t a e o g ready h = ground arith

acquire_admit_lem :
    (c : Bool) (r : AcquireRequest) (m : Member) (s : Server)
    → acquire_admit c r m s ≡ done tt
    → (controller_grant_locked r.controller_grant s ≡ true)
      × (stream_ready s ≡ true)
      × ((m.control_held ≡ true) → m.control_owner ≡ s.controller_generation)
unfolding acquire_admit
acquire_admit_lem c r m s h = ground arith

adopt_lem :
    (g : ℕ) (m : Member)
    → ((adopt g m).control_owner ≡ g)
      × ((adopt g m).control_held ≡ m.control_held)
      × (m.control_owner ≡ g → adopt g m ≡ m)
unfolding adopt
adopt_lem g m = (ground arith, ground arith, λ e. ground arith)

Granted-adopt :
    (now : ℕ) (r : AcquireRequest) (p g : ℕ) (m : Member) (t : Server)
    → (m.control_held ≡ true → m.control_owner ≡ g)
    → Granted now r p (adopt g m) t
    → Granted now r p m t
Granted-adopt now r p g m t o v = ground (arith, adopt_lem g m)

acquire_commit-Granted :
    (now : ℕ) (c : Bool) (r : AcquireRequest) (p : ℕ) (s t : Server) (a : AcquireResponse)
    → acquire_commit now c r p s ≡ (t, done a)
    → Granted now r p (s.object p) t × (a.generation ≡ r.generation)
unfolding acquire_commit
acquire_commit-Granted now c r p s t a h = elim (Result-cases (acquire_admit c r (s.object p) s)) [
  | inl (_, e) ↦
      let m' = adopt s.controller_generation (s.object p) in
      let (g, ready, o) = acquire_admit_lem c r (s.object p) s e in
      let (granted, same) =
        acquire_hold-Granted now r p m' (put p m' s) t a (update_self s.object p m')
          (adopt_lem s.controller_generation (s.object p)).0 (unfold controller_grant_locked in g)
          ready (rw (e, acquire_commit) at h) in
      (Granted-adopt now r p s.controller_generation (s.object p) t o granted, same)
  | inr (x, e) ↦ absurd (cc (rw (e, acquire_commit) at h))
]

-- Whatever other threads do between the two locks, a successful `acquireControl` leaves the member
-- that the caller names, as it is registered then, held by the current controller at the requested
-- generation and not retiring, under a grant and a ready stream that are checked after them, with
-- a heartbeat that starts now unless it was held before and is unchanged.
pub acquire_control-Granted :
    (now : ℕ) (c late : Bool) (others : Server → Server) (r : AcquireRequest) (s t : Server)
    (a : AcquireResponse)
    → acquire_control now c late others r s ≡ (t, done a)
    → (p : ℕ) × (selected_member? r.identity (others s) ≡ some p)
      × Granted now r p ((others s).object p) t
      × (a.generation ≡ r.generation)
unfolding acquire_control
acquire_control-Granted now c late others r s t a h = elim (Result-cases (acquire_entry c r s)) [
  | inr (x, e) ↦ absurd (cc (rw (e, acquire_control) at h))
  | inl (_, e) ↦ elim (Option-cases (selected_member? r.identity (others s))) [
    | inl f ↦ absurd (cc (rw (e, f, acquire_control) at h))
    | inr (p, f) ↦
        let (g, same) =
          acquire_commit-Granted now late r p (others s) t a (rw (e, f, acquire_control) at h) in
        (p, f, g, same)
  ]
]
