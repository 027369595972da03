-- ===== src/RobotServer/Succession.antt =====
-- One controller at a time, and none twice: `installController` and `retireController`
-- (src/common/src/robot_server.cpp).
use xgc2_ros1_adapter.Common.{
  ℕ, ◌≤◌, ◌≡◌, refl, ◌≢◌, inl, inr, Bool, true, false, List, [], ◌∷◌, arith, Bool-cases, Bytes,
  contains, ◌⊎◌, take,
}
use xgc2_ros1_adapter.RobotServer.State.{
  Result, Code, invalid_argument, failed_precondition, permission_denied, done, refused, Binding,
  Server, controller_credential,
}
use xgc2_ros1_adapter.RobotServer.Controller.{
  Owner, InstallRequest, owner_authorized, install_well_formed, owner_of, install_controller,
}
use xgc2_ros1_adapter.RobotServer.Retirement.{RetireRequest, give_up_one, give_up, retire_finish}
use xgc2_ros1_adapter.RobotServer.Ownership.{give_up_held}

-- The server has the installation that a request asked for.
record Holds (r : InstallRequest) (o : Owner) (t : Server) : Type 0 where
  installed : t.controller_generation ≢ 0
  generation : t.controller_generation ≡ r.generation
  open_id : t.controller_open_id ≡ r.open_id
  grant : take 32 t.controller_grant ≡ r.controller_grant
  owner : o ≡ owner_of t

-- A later answer is a refusal, or the same owner to a request that names the same installation.
abbrev pub SameInstallation : (r q : InstallRequest) → Owner → Result Owner → Type 0
SameInstallation r q o a =
    ((x : Code) × (a ≡ refused x))
    ⊎ ((a ≡ done o)
        × (q.generation ≡ r.generation)
        × (q.open_id ≡ r.open_id)
        × (q.controller_grant ≡ r.controller_grant))

give_up_owner :
    (now generation : ℕ) (ps : List ℕ) (s : Server)
    → (give_up now generation ps s).controller_generation ≡ s.controller_generation
unfolding give_up
give_up_owner now generation [] s = refl
give_up_owner now generation (p ∷ ps) s =
    ground (arith, give_up_owner now generation ps (give_up_one now generation p s))

-- After the last section of a successful retirement there is no controller, no grant is a
-- credential, and no member of the retirement's list holds control that the retired owner had.
pub retire_finish_done :
    (now : ℕ) (r : RetireRequest) (controls : List ℕ) (s t : Server) (o : Owner) (grant : Bytes)
    (p : ℕ)
    → contains p controls ≡ true
    → (s.object p).control_owner ≡ r.generation
    → retire_finish now r controls s ≡ (t, done o)
    → (t.controller_generation ≡ 0)
      × (t.retired_controller_generation ≡ s.controller_generation)
      × (controller_credential grant t ≡ false)
      × ((t.object p).control_held ≡ false)
unfolding retire_finish controller_credential
retire_finish_done now r controls s t o grant p c e h =
    ground
      (arith, give_up_held now r.generation controls s p, give_up_owner now r.generation controls s)

install_retired :
    (equals : Binding → Binding → Bool) (peer : Bytes) (q : InstallRequest) (s : Server)
    → s.controller_generation ≡ 0
    → q.generation ≤ s.retired_controller_generation
    → (x : Code) × (install_controller equals peer q s ≡ (s, refused x))
unfolding install_controller
install_retired equals peer q s e h = elim (Bool-cases (owner_authorized peer q.process_owner s)) [
  | inr f ↦ (permission_denied, rw (f, install_controller))
  | inl f ↦ elim (Bool-cases (install_well_formed q s)) [
    | inr g ↦ (invalid_argument, rw (f, g, install_controller))
    | inl g ↦ (failed_precondition, rw (f, g, install_controller) (ground arith))
  ]
]

-- A generation does not come back: after a successful last section no installation at the retired
-- generation or below it succeeds, and it changes nothing.
pub retire_finish-install_controller :
    (equals : Binding → Binding → Bool) (peer : Bytes) (now : ℕ) (r : RetireRequest)
    (controls : List ℕ) (s t : Server) (o : Owner) (q : InstallRequest)
    → retire_finish now r controls s ≡ (t, done o)
    → q.generation ≤ s.controller_generation
    → (x : Code) × (install_controller equals peer q t ≡ (t, refused x))
unfolding retire_finish
retire_finish-install_controller equals peer now r controls s t o q h g =
    install_retired equals peer q t (ground arith)
      (ground (arith, give_up_owner now r.generation controls s))
