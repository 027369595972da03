-- ===== src/RobotServer/Safety.antt =====
-- Which motion reaches a robot, and when a robot is told that it is alone: `dispatch`, `complete`,
-- `memberSilence` and the dead-man section (src/common/src/robot_server.cpp).
use xgc2_ros1_adapter.Common.{
  ℕ, ◌+◌, ◌≡◌, ap, subst, inl, inr, Bool, true, false, List, [], ◌∷◌, none, arith, Option-cases,
}
use xgc2_ros1_adapter.RobotServer.State.{
  Command, Member, Server, controller_grant_locked, stream_ready,
}
use xgc2_ros1_adapter.RobotServer.Renewal.{member_silence}
use xgc2_ros1_adapter.RobotServer.Dispatch.{
  Clocks, running, stale_heartbeat, control_available, refusal, submit, dispatch_one,
  dispatch_front, dispatch,
}

-- What a motion is given on: current control of the member that it moves.
pub record Permitted (now : ℕ) (c : Command) (m : Member) (s : Server) : Type 0 where
  pub granted : controller_grant_locked c.controller_grant s ≡ true
  pub ready : stream_ready s ≡ true
  pub held : m.control_held ≡ true
  pub live : m.control_retiring ≡ false
  pub member : m.closing ≡ false
  pub owned : m.control_owner ≡ s.controller_generation
  pub generation : m.control_generation ≡ c.control_generation
  pub fresh : stale_heartbeat now m ≡ false

control_available-Permitted :
    (now : ℕ) (c : Command) (m : Member) (s : Server)
    → control_available now c m s ≡ true
    → Permitted now c m s
unfolding control_available
control_available-Permitted now c m s h = ground arith

refusal-none :
    (t : Clocks) (c : Command) (m : Member) (s : Server)
    → refusal t c m s ≡ none
    → c.requires_control ≡ true
    → control_available t.steady c m s ≡ true
unfolding refusal
refusal-none t c m s h r = ground arith

abbrev taken : List Command → ℕ → Server → Member
taken rest p s = record (s.object p) { commands = rest }

dispatch_front_running :
    (t : Clocks) (handle : ℕ) (cs : List Command) (p : ℕ) (s : Server) (c : Command)
    → (dispatch_front t handle cs p s).1 ≡ running c
    → (rest : List Command) × (cs ≡ c ∷ rest)
      × (refusal t c (taken rest p s) s ≡ none)
      × ((dispatch_front t handle cs p s).0 ≡ submit handle c p (taken rest p s) s)
unfolding dispatch_front dispatch_one
dispatch_front_running t handle [] p s c h = absurd (cc h)
dispatch_front_running t handle (d ∷ rest) p s c h =
    elim (Option-cases (refusal t d (taken rest p s) s)) [
      | inl e ↦
          let same : d ≡ c = cc (rw (e, dispatch_one) at h) in
          (
            rest,
            ap (λ x. x ∷ rest) same,
            subst (λ x. refusal t x (taken rest p s) s ≡ none) same e,
            rw (e, dispatch_one) (ap (λ x. submit handle x p (taken rest p s) s) same),
          )
      | inr (x, e) ↦ absurd (cc (rw (e, dispatch_one) at h))
    ]

submit_motion :
    (handle : ℕ) (c : Command) (p : ℕ) (rest : List Command) (s : Server)
    → c.requires_control ≡ true
    → let u = submit handle c p (taken rest p s) s in
      ((u.object p).potential_motion ≡ true)
      × ((u.object p).control_work ≡ (s.object p).control_work + 1)
      × (u.controller_work ≡ s.controller_work + 1)
unfolding submit
submit_motion handle c p rest s r = ground arith

-- A dispatch that starts a motion takes the front command of the member's queue; the member is
-- open and held by the current controller, not retiring, at the generation that the command names
-- and with a heartbeat within its limit, under the controller's grant and a ready control stream;
-- and the motion is counted as work that a release waits for, and marked as possible motion.
pub dispatch-Permitted :
    (t : Clocks) (busy : Bool) (handle p : ℕ) (s : Server) (c : Command)
    → (dispatch t busy handle p s).1 ≡ running c
    → c.requires_control ≡ true
    → let u = (dispatch t busy handle p s).0 in
      (rest : List Command) × ((s.object p).commands ≡ c ∷ rest)
      × Permitted t.steady c (s.object p) s
      × ((u.object p).potential_motion ≡ true)
      × ((u.object p).control_work ≡ (s.object p).control_work + 1)
      × (u.controller_work ≡ s.controller_work + 1)
unfolding dispatch
dispatch-Permitted t true handle p s c h r = absurd (cc h)
dispatch-Permitted t false handle p s c h r =
    let (rest, front, e, u) = dispatch_front_running t handle (s.object p).commands p s c h in
    let v = control_available-Permitted t.steady c (taken rest p s) s (refusal-none t c _ s e r) in
    let counted = submit_motion handle c p rest s r in
    (
      rest,
      front,
      record {
        granted = v.granted;
        ready = v.ready;
        held = v.held;
        live = v.live;
        member = v.member;
        owned = v.owned;
        generation = v.generation;
        fresh = v.fresh;
      },
      rw u counted.0,
      rw u counted.1,
      rw u counted.2,
    )

submit_silence :
    (now handle : ℕ) (c : Command) (p : ℕ) (rest : List Command) (s : Server)
    → Permitted now c (s.object p) s
    → member_silence now p (submit handle c p (taken rest p s) s) ≡ 0
unfolding submit member_silence controller_grant_locked
submit_silence now handle c p rest s v = ground (arith, v)

-- A motion starts only for a member that the dead-man would not report as silent at that time.
pub dispatch-member_silence :
    (t : Clocks) (busy : Bool) (handle p : ℕ) (s : Server) (c : Command)
    → (dispatch t busy handle p s).1 ≡ running c
    → c.requires_control ≡ true
    → member_silence t.steady p (dispatch t busy handle p s).0 ≡ 0
unfolding dispatch
dispatch-member_silence t true handle p s c h r = absurd (cc h)
dispatch-member_silence t false handle p s c h r =
    let (rest, front, e, u) = dispatch_front_running t handle (s.object p).commands p s c h in
    rw u (submit_silence t.steady handle c p rest s (dispatch-Permitted t false handle p s c h r).2)
