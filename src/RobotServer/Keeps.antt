-- ===== src/RobotServer/Keeps.antt =====
-- Which sections leave the owner alone, and add no control while it retires.
use xgc2_ros1_adapter.Common.{
  ℕ, ◌≡◌, refl, ◌≢◌, inl, inr, Bool, true, false, List, [], ◌∷◌, ◌∙◌, Option, none, some, arith,
  Bytes, contains, contains-erase,
}
use xgc2_ros1_adapter.RobotServer.State.{
  MemberIdentity, Command, Result-cases, done, Binding, Member, Server, controller_grant_locked,
  put,
}
use xgc2_ros1_adapter.RobotServer.Control.{
  AcquireRequest, acquire_admit, adopt, acquire_hold, acquire_commit,
}
use xgc2_ros1_adapter.RobotServer.Renewal.{Renewal, renew_one, renew_each}
use xgc2_ros1_adapter.RobotServer.Release.{ReleaseRequest, release_begin, release_finish}
use xgc2_ros1_adapter.RobotServer.Controller.{InstallRequest, install_controller}
use xgc2_ros1_adapter.RobotServer.Dispatch.{enqueue, submit, dead_man}

-- A section that leaves the owner alone, and adds no control while the owner retires.
abbrev pub Keeps : Server → Server → Type 0
Keeps s t =
    (t.controller_generation ≡ s.controller_generation)
    × (t.controller_retiring ≡ s.controller_retiring)
    × ((p : ℕ)
        → s.controller_retiring ≡ true
        → contains p t.control_members ≡ true
        → contains p s.control_members ≡ true)

acquire_hold-Keeps :
    (now : ℕ) (r : AcquireRequest) (p : ℕ) (m : Member) (s : Server)
    → s.controller_retiring ≡ false
    → Keeps s (acquire_hold now r p m s).0
unfolding acquire_hold
acquire_hold-Keeps now r p m s e = (ground arith, ground arith, λ q f c. cc)

not_retiring :
    (c : Bool) (r : AcquireRequest) (m : Member) (s : Server)
    → acquire_admit c r m s ≡ done tt
    → s.controller_retiring ≡ false
unfolding acquire_admit controller_grant_locked
not_retiring c r m s h = ground arith

pub acquire_commit-Keeps :
    (now : ℕ) (c : Bool) (r : AcquireRequest) (p : ℕ) (s : Server)
    → Keeps s (acquire_commit now c r p s).0
unfolding acquire_commit
acquire_commit-Keeps now c r p s = elim (Result-cases (acquire_admit c r (s.object p) s)) [
  | inl (_, e) ↦
      rw (e, acquire_commit)
        (acquire_hold-Keeps now r p (adopt s.controller_generation (s.object p))
          (put p (adopt s.controller_generation (s.object p)) s)
          (not_retiring c r (s.object p) s e))
  | inr (x, e) ↦ rw (e, acquire_commit) (refl, refl, λ q f h. h)
]

renew_one-Keeps :
    (now : ℕ) (r : Renewal) (p : Option ℕ) (s : Server) → Keeps s (renew_one now r p s).0
unfolding renew_one
renew_one-Keeps now r none s = (refl, refl, λ q f h. h)
renew_one-Keeps now r (some p) s = (ground arith, ground arith, λ q f h. ground arith)

pub renew_each-Keeps :
    (now : ℕ) (found : List (Renewal × Option ℕ)) (s : Server) → Keeps s (renew_each now found s).0
unfolding renew_each
renew_each-Keeps now [] s = (refl, refl, λ q f h. h)
renew_each-Keeps now ((r, p) ∷ rest) s =
    let t = (renew_one now r p s).0 in
    let k = renew_one-Keeps now r p s in
    let l = renew_each-Keeps now rest t in
    (l.0 ∙ k.0, l.1 ∙ k.1, λ q f h. k.2 q f (l.2 q (k.1 ∙ f) h))

pub install_controller_owned :
    (equals : Binding → Binding → Bool) (peer : Bytes) (r : InstallRequest) (s : Server)
    → s.controller_generation ≢ 0
    → (install_controller equals peer r s).0 ≡ s
unfolding install_controller
install_controller_owned equals peer r s n = ground arith

pub release_begin-Keeps :
    (now : ℕ) (c : Bool) (r : ReleaseRequest) (p : ℕ) (s : Server)
    → Keeps s (release_begin now c r p s).0
unfolding release_begin
release_begin-Keeps now c r p s = (ground arith, ground arith, λ q f h. ground arith)

pub release_finish-Keeps :
    (success : Bool) (r : ReleaseRequest) (p : ℕ) (s : Server)
    → Keeps s (release_finish success r p s).0
unfolding release_finish
release_finish-Keeps success r p s =
    (ground arith, ground arith, λ q f h. ground (arith, contains-erase p q s.control_members))

pub submit-Keeps :
    (handle : ℕ) (c : Command) (p : ℕ) (rest : List Command) (s : Server)
    → Keeps s (submit handle c p (record (s.object p) { commands = rest }) s)
unfolding submit
submit-Keeps handle c p rest s = (refl, refl, λ q f h. h)

pub enqueue-Keeps :
    (identity : MemberIdentity) (c : Command) (s : Server) → Keeps s (enqueue identity c s).0
unfolding enqueue
enqueue-Keeps identity c s = (ground arith, ground arith, λ q f h. ground arith)

pub dead_man-Keeps :
    (now : ℕ) (answer : Bool) (p : ℕ) (s : Server) → Keeps s (dead_man now answer p s)
unfolding dead_man
dead_man-Keeps now answer p s = (ground arith, ground arith, λ q f h. ground arith)
