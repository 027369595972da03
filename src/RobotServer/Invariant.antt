-- ===== src/RobotServer/Invariant.antt =====
-- What holds of the server's control between two critical sections.
use xgc2_ros1_adapter.Common.{
  ℕ, ◌≤◌, ◌<◌, ◌≡◌, ◌≢◌, inl, inr, Bool, true, List, [], ◌∷◌, Option, none, some, arith, length,
  contains, contains-erase, length-erase, update_self,
}
use xgc2_ros1_adapter.RobotServer.Renewal.{Renewal, renew_one, renew_each}
use xgc2_ros1_adapter.RobotServer.Dispatch.{Completion, enqueue, submit, complete, dead_man}
use xgc2_ros1_adapter.RobotServer.State.{
  MemberIdentity, Command, Result-cases, done, Member, Server, maximum_robots,
  controller_grant_locked, put,
}
use xgc2_ros1_adapter.RobotServer.Control.{
  AcquireRequest, acquire_admit, adopt, acquire_hold, acquire_commit,
}
use xgc2_ros1_adapter.RobotServer.Release.{
  ReleaseRequest, release_begin, start_finishing, release_finish, end_wait,
}

-- A held member belongs to the installed controller, at a generation above the retired one, and
-- stands in the table of controls.
abbrev pub HeldAt : ℕ → Server → Type 0
HeldAt p s =
    (s.object p).control_held ≡ true
    → ((s.object p).control_owner ≡ s.controller_generation)
      × (s.controller_generation ≢ 0)
      × ((s.object p).retired_control_generation < (s.object p).control_generation)
      × (contains p s.control_members ≡ true)

pub record ControlValid (s : Server) : Type 0 where
  pub held : (p : ℕ) → HeldAt p s
  pub bounded : length s.control_members ≤ maximum_robots

adopt-HeldAt :
    (scope_cancelled : Bool) (r : AcquireRequest) (p q : ℕ) (s : Server)
    → ControlValid s
    → acquire_admit scope_cancelled r (s.object p) s ≡ done tt
    → HeldAt q (put p (adopt s.controller_generation (s.object p)) s)
unfolding acquire_admit adopt
adopt-HeldAt scope_cancelled r p q s v h = ground (arith, v.held q)

grant_generation :
    (scope_cancelled : Bool) (r : AcquireRequest) (p : ℕ) (s : Server)
    → acquire_admit scope_cancelled r (s.object p) s ≡ done tt
    → s.controller_generation ≢ 0
unfolding acquire_admit controller_grant_locked
grant_generation scope_cancelled r p s h = ground arith

adopt_owner : (generation : ℕ) (m : Member) → (adopt generation m).control_owner ≡ generation
unfolding adopt
adopt_owner generation m = ground arith

acquire_hold-ControlValid :
    (now : ℕ) (r : AcquireRequest) (p : ℕ) (m : Member) (s : Server)
    → ControlValid s
    → s.object p ≡ m
    → m.control_owner ≡ s.controller_generation
    → s.controller_generation ≢ 0
    → ControlValid (acquire_hold now r p m s).0
unfolding acquire_hold contains
acquire_hold-ControlValid now r p m s v e o g = record {
  held = λ q. ground (arith, v.held q);
  bounded = ground (arith, v.bounded);
}

pub acquire_commit-ControlValid :
    (now : ℕ) (scope_cancelled : Bool) (r : AcquireRequest) (p : ℕ) (s : Server)
    → ControlValid s
    → ControlValid (acquire_commit now scope_cancelled r p s).0
unfolding acquire_commit
acquire_commit-ControlValid now scope_cancelled r p s v =
    elim (Result-cases (acquire_admit scope_cancelled r (s.object p) s)) [
      | inl (_, e) ↦
          rw (e, acquire_commit)
            (acquire_hold-ControlValid now r p (adopt s.controller_generation (s.object p))
              (put p (adopt s.controller_generation (s.object p)) s)
              (record { held = λ q. adopt-HeldAt scope_cancelled r p q s v e; bounded = v.bounded })
              (update_self s.object p _) (adopt_owner s.controller_generation (s.object p))
              (grant_generation scope_cancelled r p s e))
      | inr (c, e) ↦ rw (e, acquire_commit) v
    ]

pub release_begin-ControlValid :
    (now : ℕ) (scope_cancelled : Bool) (r : ReleaseRequest) (p : ℕ) (s : Server)
    → ControlValid s
    → ControlValid (release_begin now scope_cancelled r p s).0
unfolding release_begin
release_begin-ControlValid now scope_cancelled r p s v = record {
  held = λ q. ground (arith, v.held q);
  bounded = ground (arith, v.bounded);
}

pub start_finishing-ControlValid :
    (p : ℕ) (s : Server) → ControlValid s → ControlValid (start_finishing p s)
unfolding start_finishing
start_finishing-ControlValid p s v = record {
  held = λ q. ground (arith, v.held q);
  bounded = v.bounded;
}

pub end_wait-ControlValid : (p : ℕ) (s : Server) → ControlValid s → ControlValid (end_wait p s)
unfolding end_wait
end_wait-ControlValid p s v = record { held = λ q. ground (arith, v.held q); bounded = v.bounded }

pub release_finish-ControlValid :
    (success : Bool) (r : ReleaseRequest) (p : ℕ) (s : Server)
    → ControlValid s
    → ControlValid (release_finish success r p s).0
unfolding release_finish
release_finish-ControlValid success r p s v = record {
  held = λ q. ground (arith, v.held q, contains-erase p q s.control_members);
  bounded = ground (arith, v.bounded, length-erase p s.control_members);
}

pub renew_one-ControlValid :
    (now : ℕ) (r : Renewal) (p : Option ℕ) (s : Server)
    → ControlValid s
    → ControlValid (renew_one now r p s).0
unfolding renew_one
renew_one-ControlValid now r none s v = v
renew_one-ControlValid now r (some p) s v = record {
  held = λ q. ground (arith, v.held q);
  bounded = ground (arith, v.bounded);
}

pub renew_each-ControlValid :
    (now : ℕ) (found : List (Renewal × Option ℕ)) (s : Server)
    → ControlValid s
    → ControlValid (renew_each now found s).0
unfolding renew_each
renew_each-ControlValid now [] s v = v
renew_each-ControlValid now ((r, p) ∷ rest) s v =
    renew_each-ControlValid now rest (renew_one now r p s).0 (renew_one-ControlValid now r p s v)

pub submit-ControlValid :
    (handle : ℕ) (c : Command) (p : ℕ) (rest : List Command) (s : Server)
    → ControlValid s
    → ControlValid (submit handle c p (record (s.object p) { commands = rest }) s)
unfolding submit
submit-ControlValid handle c p rest s v = record {
  held = λ q. ground (arith, v.held q);
  bounded = v.bounded;
}

pub complete-ControlValid :
    (control_work release : Bool) (result : Completion) (p : ℕ) (s : Server)
    → ControlValid s
    → ControlValid (complete control_work release result p s)
unfolding complete
complete-ControlValid control_work release result p s v = record {
  held = λ q. ground (arith, v.held q);
  bounded = v.bounded;
}

pub enqueue-ControlValid :
    (identity : MemberIdentity) (c : Command) (s : Server)
    → ControlValid s
    → ControlValid (enqueue identity c s).0
unfolding enqueue
enqueue-ControlValid identity c s v = record {
  held = λ q. ground (arith, v.held q);
  bounded = ground (arith, v.bounded);
}

pub dead_man-ControlValid :
    (now : ℕ) (answer : Bool) (p : ℕ) (s : Server)
    → ControlValid s
    → ControlValid (dead_man now answer p s)
unfolding dead_man
dead_man-ControlValid now answer p s v = record {
  held = λ q. ground (arith, v.held q);
  bounded = ground (arith, v.bounded);
}
