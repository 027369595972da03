-- ===== src/RobotServer/Cases.antt =====
-- Case rules for the sections that test many things at once: what holds on each way out holds after.
use xgc2_ros1_adapter.Common.{ℕ, inl, inr, Bool, true, false, List, [], ◌∷◌, Option, Option-cases}
use xgc2_ros1_adapter.RobotServer.State.{Command, Result-cases, Server, put}
use xgc2_ros1_adapter.RobotServer.Renewal.{
  RenewRequest, Renewal, renew_admit, renew_each, renew_commit,
}
use xgc2_ros1_adapter.RobotServer.Dispatch.{
  Clocks, refusal, submit, dispatch_one, dispatch_front, dispatch,
}

pub renew_commit_elim {ℓ} :
    (P : Server → Type ℓ) (now : ℕ) (c : Bool) (r : RenewRequest)
    (found : List (Renewal × Option ℕ)) (s : Server)
    → P s
    → P (renew_each now found s).0
    → P (renew_commit now c r found s).0
unfolding renew_commit
renew_commit_elim P now c r found s h k = elim (Result-cases (renew_admit c r s)) [
  | inl (_, e) ↦ rw (e, renew_commit) k
  | inr (x, e) ↦ rw (e, renew_commit) h
]

module _ {ℓ} (P : Server → Type ℓ) (t : Clocks) (handle p : ℕ) (s : Server) where
  -- Either the front command leaves the queue, or it is submitted.
  abbrev pub Leaves : Type ℓ
  Leaves = (rest : List Command) → P (put p (record (s.object p) { commands = rest }) s)

  abbrev pub Submits : Type ℓ
  Submits =
      (c : Command) (rest : List Command)
      → P (submit handle c p (record (s.object p) { commands = rest }) s)

  dispatch_front_elim :
      (cs : List Command) → P s → Leaves → Submits → P (dispatch_front t handle cs p s).0
  unfolding dispatch_front dispatch_one
  dispatch_front_elim [] h k l = h
  dispatch_front_elim (c ∷ rest) h k l =
      elim (Option-cases (refusal t c (record (s.object p) { commands = rest }) s)) [
        | inl e ↦ rw (e, dispatch_one) (l c rest)
        | inr (x, e) ↦ rw (e, dispatch_one) (k rest)
      ]

  pub dispatch_elim : (busy : Bool) → P s → Leaves → Submits → P (dispatch t busy handle p s).0
  unfolding dispatch
  dispatch_elim true h k l = h
  dispatch_elim false h k l = dispatch_front_elim (s.object p).commands h k l
