-- ===== src/RobotServer/Ownership.antt =====
-- Any interleaving of the critical sections keeps control with the one installed controller.
use xgc2_ros1_adapter.Common.{
  ℕ, ◌≤◌, ◌<◌, ◌≡◌, refl, ◌≢◌, ◌⊎◌, inl, inr, Bool, true, false, List, [], ◌∷◌, ◌&&◌, ◌∙◌, none,
  some, arith, ◌==◌, Bytes, length, contains, contains-erase, length-erase, Option,
}
use xgc2_ros1_adapter.RobotServer.State.{Command, Binding, Member, Slot, Server, Result-cases, put}
use xgc2_ros1_adapter.RobotServer.Renewal.{RenewRequest, renew_entry, renew_begin}
use xgc2_ros1_adapter.RobotServer.Status.{
  StatusOwner, put_slot, admit_owned_status, ready_status, status_done, release_status,
  retire_status_begin,
}
use xgc2_ros1_adapter.RobotServer.Drain.{stop_native, stop_control}
use xgc2_ros1_adapter.RobotServer.Release.{start_finishing, end_wait}
use xgc2_ros1_adapter.RobotServer.Controller.{InstallRequest, install_controller}
use xgc2_ros1_adapter.RobotServer.Retirement.{
  RetireRequest, retire_begin, retire_finish, give_up_one, give_up,
}
use xgc2_ros1_adapter.RobotServer.Dispatch.{complete}
use xgc2_ros1_adapter.RobotServer.Cases.{renew_commit_elim, dispatch_elim}
use xgc2_ros1_adapter.RobotServer.Interleaving.{
  System, Section, acquires, begins_renewal, renews, admits_status, readies_status, ends_status,
  releases_status, retires_status, finishes_server, stops_native, stops_control, begins_release,
  starts_native_release, finishes_release, ends_wait, installs, begins_retirement, collects_members,
  retires_member, abandons_retirement, finishes_retirement, enqueues, dispatches, completes,
  watches, publishes, closes, Reach, here, next,
}
use xgc2_ros1_adapter.RobotServer.Keeps.{
  Keeps, acquire_commit-Keeps, renew_each-Keeps, install_controller_owned, release_begin-Keeps,
  release_finish-Keeps, submit-Keeps, enqueue-Keeps, dead_man-Keeps,
}
use xgc2_ros1_adapter.RobotServer.Invariant.{
  ControlValid, acquire_commit-ControlValid, release_begin-ControlValid,
  start_finishing-ControlValid, end_wait-ControlValid, release_finish-ControlValid,
  renew_each-ControlValid, submit-ControlValid, complete-ControlValid, enqueue-ControlValid,
  dead_man-ControlValid,
}

-- What is left of a held member after the members of a list gave theirs up.
pub give_up_held :
    (now generation : ℕ) (ps : List ℕ) (s : Server) (q : ℕ)
    → ((give_up now generation ps s).object q).control_held ≡ true
    → ((s.object q).control_held ≡ true)
      × ((contains q ps && (s.object q).control_owner == generation) ≡ false)
unfolding give_up contains
give_up_held now generation [] s q h = (h, refl)
give_up_held now generation (p ∷ ps) s q h =
    ground (arith, give_up_held now generation ps (give_up_one now generation p s) q h)

length-give_up :
    (now generation : ℕ) (ps : List ℕ) (s : Server)
    → length (give_up now generation ps s).control_members ≤ length s.control_members
unfolding give_up
length-give_up now generation [] s = omega arith
length-give_up now generation (p ∷ ps) s = ground (
  arith,
  length-give_up now generation ps (give_up_one now generation p s),
  length-erase p s.control_members,
)

-- While a retirement runs, its list covers every control, and its request names the owner.
pub record SystemValid (a : System) : Type 0 where
  pub control : ControlValid a.server
  pub covered :
      (r : RetireRequest) (controls : List ℕ)
      → a.retirement ≡ some (r, controls)
      → (a.server.controller_retiring ≡ true)
        × (a.server.controller_generation ≡ r.generation)
        × (a.server.controller_generation ≢ 0)
        × ((p : ℕ) → contains p a.server.control_members ≡ true → contains p controls ≡ true)

Keeps-SystemValid :
    (a : System) (t : Server)
    → SystemValid a
    → Keeps a.server t
    → ControlValid t
    → SystemValid (record a { server = t })
Keeps-SystemValid a t v k c = record {
  control = c;
  covered = λ r controls e.
      let (f, g, n, m) = v.covered r controls e in
      (k.1 ∙ f, k.0 ∙ g, rw k.0 n, λ p h. m p (k.2 p f h));
}

install-ControlValid :
    (equals : Binding → Binding → Bool) (peer : Bytes) (r : InstallRequest) (s : Server)
    → ControlValid s
    → ControlValid (install_controller equals peer r s).0
unfolding install_controller
install-ControlValid equals peer r s v = record {
  held = λ q. ground (arith, v.held q);
  bounded = ground (arith, v.bounded);
}

retire_begin-ControlValid :
    (peer : Bytes) (r : RetireRequest) (s : Server)
    → ControlValid s
    → ControlValid (retire_begin peer r s).0
unfolding retire_begin
retire_begin-ControlValid peer r s v = record {
  held = λ q. ground (arith, v.held q);
  bounded = ground (arith, v.bounded);
}

take-ControlValid :
    (p : ℕ) (rest : List Command) (s : Server)
    → ControlValid s
    → ControlValid (put p (record (s.object p) { commands = rest }) s)
take-ControlValid p rest s v = record { held = λ q. ground (arith, v.held q); bounded = v.bounded }

-- The last section of a retirement that covers every control leaves none held.
retire_finish-SystemValid :
    (a : System) (now : ℕ) (r : RetireRequest) (controls : List ℕ)
    → SystemValid a
    → a.retirement ≡ some (r, controls)
    → ControlValid (retire_finish now r controls a.server).0
unfolding retire_finish
retire_finish-SystemValid a now r controls v e = record {
  held = λ q. ground (
    arith,
    give_up_held now r.generation controls a.server q,
    v.control.held q,
    v.covered r controls e,
    (v.covered r controls e).3 q,
  );
  bounded = ground (arith, v.control.bounded, length-give_up now r.generation controls a.server);
}

retire_begin-covered :
    (peer : Bytes) (r : RetireRequest) (s : Server)
    → s.controller_retiring ≡ true
    → ((retire_begin peer r s).0.controller_retiring ≡ true)
      × ((retire_begin peer r s).0.controller_generation ≡ s.controller_generation)
      × ((retire_begin peer r s).0.control_members ≡ s.control_members)
unfolding retire_begin
retire_begin-covered peer r s e = (ground arith, ground arith, ground arith)

retire_begin-SystemValid :
    (a : System) (peer : Bytes) (r : RetireRequest)
    → SystemValid a
    → SystemValid (record a { server = (retire_begin peer r a.server).0 })
retire_begin-SystemValid a peer r v = record {
  control = retire_begin-ControlValid peer r a.server v.control;
  covered = λ r' controls e.
      let (f, g, n, m) = v.covered r' controls e in
      let (x, y, z) = retire_begin-covered peer r a.server f in
      (x, y ∙ g, rw y n, λ p h. m p (rw z at h));
}

install-SystemValid :
    (a : System) (equals : Binding → Binding → Bool) (peer : Bytes) (r : InstallRequest)
    → SystemValid a
    → SystemValid (record a { server = (install_controller equals peer r a.server).0 })
install-SystemValid a equals peer r v = record {
  control = install-ControlValid equals peer r a.server v.control;
  covered = λ r' controls e.
      let owned = v.covered r' controls e in
      rw (install_controller_owned equals peer r a.server owned.2) owned;
}

abandon-SystemValid :
    (a : System) (s : Server)
    → ControlValid s
    → SystemValid (record { server = s; retirement = none })
abandon-SystemValid a s c = record { control = c; covered = λ r controls e. cc }

-- A change of one object that takes no control.
put-ControlValid :
    (p : ℕ) (m : Member) (s : Server)
    → ControlValid s
    → (m.control_held ≡ false)
      ⊎ ((m.control_held ≡ (s.object p).control_held)
          × (m.control_owner ≡ (s.object p).control_owner)
          × (m.control_generation ≡ (s.object p).control_generation)
          × (m.retired_control_generation ≡ (s.object p).retired_control_generation))
    → ControlValid (put p m s)
put-ControlValid p m s v h = record { held = λ q. ground (arith, v.held q); bounded = v.bounded }

-- A section that the invariant does not read anything of.
record Steady (s t : Server) : Type 0 where
  object : t.object ≡ s.object
  members : t.control_members ≡ s.control_members
  generation : t.controller_generation ≡ s.controller_generation
  retiring : t.controller_retiring ≡ s.controller_retiring

Steady-ControlValid : (s t : Server) → Steady s t → ControlValid s → ControlValid t
Steady-ControlValid s t k v = record {
  held = λ q. rw (k.object, k.members, k.generation) (v.held q);
  bounded = rw k.members v.bounded;
}

Steady-SystemValid :
    (a : System) (t : Server)
    → SystemValid a
    → Steady a.server t
    → SystemValid (record a { server = t })
Steady-SystemValid a t v k =
    Keeps-SystemValid a t v (k.generation, k.retiring, λ p f h. rw k.members at h)
      (Steady-ControlValid a.server t k v.control)

renew_begin-Steady :
    (now : ℕ) (c : Bool) (r : RenewRequest) (s : Server) → Steady s (renew_begin now c r s).0
unfolding renew_begin
renew_begin-Steady now c r s = elim (Result-cases (renew_entry now c r s)) [
  | inl (_, e) ↦
      rw (e, renew_begin)
        (record { object = refl; members = refl; generation = refl; retiring = refl })
  | inr (x, e) ↦
      rw (e, renew_begin)
        (record { object = refl; members = refl; generation = refl; retiring = refl })
]

put_slot-Steady : (control : Bool) (slot : Slot) (s : Server) → Steady s (put_slot control slot s)
put_slot-Steady true slot s = record {
  object = refl;
  members = refl;
  generation = refl;
  retiring = refl;
}
put_slot-Steady false slot s = record {
  object = refl;
  members = refl;
  generation = refl;
  retiring = refl;
}

admit_owned_status-Steady :
    (call : ℕ) (control known : Bool) (o : Option StatusOwner) (s : Server)
    → Steady s (admit_owned_status call control known o s).0
unfolding admit_owned_status
admit_owned_status-Steady call control known none s = record {
  object = refl;
  members = refl;
  generation = refl;
  retiring = refl;
}
admit_owned_status-Steady call true known (some o) s = record {
  object = ground arith;
  members = ground arith;
  generation = ground arith;
  retiring = ground arith;
}
admit_owned_status-Steady call false known (some o) s = record {
  object = ground arith;
  members = ground arith;
  generation = ground arith;
  retiring = ground arith;
}

ready_status-Steady :
    (call : ℕ) (control : Bool) (s : Server) → Steady s (ready_status call control s).0
unfolding ready_status
ready_status-Steady call control s = record {
  object = ground arith;
  members = ground arith;
  generation = ground arith;
  retiring = ground arith;
}

status_done-Steady :
    (call : ℕ) (control : Bool) (s : Server) → Steady s (status_done call control s)
unfolding status_done
status_done-Steady call control s = record {
  object = ground arith;
  members = ground arith;
  generation = ground arith;
  retiring = ground arith;
}

release_status-Steady :
    (call : ℕ) (control : Bool) (s : Server) → Steady s (release_status call control s)
unfolding release_status
release_status-Steady call control s = record {
  object = ground arith;
  members = ground arith;
  generation = ground arith;
  retiring = ground arith;
}

retire_status_begin-Steady :
    (control : Bool) (o : StatusOwner) (s : Server) → Steady s (retire_status_begin control o s).0
unfolding retire_status_begin
retire_status_begin-Steady true o s = record {
  object = ground arith;
  members = ground arith;
  generation = ground arith;
  retiring = ground arith;
}
retire_status_begin-Steady false o s = record {
  object = ground arith;
  members = ground arith;
  generation = ground arith;
  retiring = ground arith;
}

stop_control-ControlValid : (p : ℕ) (s : Server) → ControlValid s → ControlValid (stop_control p s)
unfolding stop_control
stop_control-ControlValid p s v = record {
  held = λ q. ground (arith, v.held q, contains-erase p q s.control_members);
  bounded = ground (arith, v.bounded, length-erase p s.control_members);
}

stop_control-Keeps : (p : ℕ) (s : Server) → Keeps s (stop_control p s)
unfolding stop_control
stop_control-Keeps p s = (refl, refl, λ q f h. ground (arith, contains-erase p q s.control_members))

pub step-SystemValid : {a b : System} → Section a b → SystemValid a → SystemValid b
step-SystemValid (acquires a now c r p) v =
    Keeps-SystemValid a _ v (acquire_commit-Keeps now c r p a.server)
      (acquire_commit-ControlValid now c r p a.server v.control)
step-SystemValid (renews a now c r found) v =
    Keeps-SystemValid a _ v
      (renew_commit_elim (Keeps a.server) now c r found a.server (refl, refl, λ q f h. h)
        (renew_each-Keeps now found a.server))
      (renew_commit_elim ControlValid now c r found a.server v.control
        (renew_each-ControlValid now found a.server v.control))
step-SystemValid (begins_renewal a now c r) v =
    Steady-SystemValid a _ v (renew_begin-Steady now c r a.server)
step-SystemValid (admits_status a call control known o) v =
    Steady-SystemValid a _ v (admit_owned_status-Steady call control known o a.server)
step-SystemValid (readies_status a call control) v =
    Steady-SystemValid a _ v (ready_status-Steady call control a.server)
step-SystemValid (ends_status a call control) v =
    Steady-SystemValid a _ v (status_done-Steady call control a.server)
step-SystemValid (releases_status a call control) v =
    Steady-SystemValid a _ v (release_status-Steady call control a.server)
step-SystemValid (retires_status a control o) v =
    Steady-SystemValid a _ v (retire_status_begin-Steady control o a.server)
step-SystemValid (finishes_server a) v = Steady-SystemValid a _ v (put_slot-Steady true _ a.server)
step-SystemValid (stops_native a p) v =
    unfold stop_native in
    Keeps-SystemValid a _ v (refl, refl, λ q f h. h)
      (put-ControlValid p _ a.server v.control (inr (refl, refl, refl, refl)))
step-SystemValid (stops_control a p) v =
    Keeps-SystemValid a _ v (stop_control-Keeps p a.server)
      (stop_control-ControlValid p a.server v.control)
step-SystemValid (begins_release a now c r p) v =
    Keeps-SystemValid a _ v (release_begin-Keeps now c r p a.server)
      (release_begin-ControlValid now c r p a.server v.control)
step-SystemValid (starts_native_release a p) v =
    unfold start_finishing in
    Keeps-SystemValid a _ v (refl, refl, λ q f h. h)
      (start_finishing-ControlValid p a.server v.control)
step-SystemValid (finishes_release a success r p) v =
    Keeps-SystemValid a _ v (release_finish-Keeps success r p a.server)
      (release_finish-ControlValid success r p a.server v.control)
step-SystemValid (ends_wait a p) v =
    unfold end_wait in
    Keeps-SystemValid a _ v (refl, refl, λ q f h. h) (end_wait-ControlValid p a.server v.control)
step-SystemValid (installs a equals peer r) v = install-SystemValid a equals peer r v
step-SystemValid (begins_retirement a peer r) v = retire_begin-SystemValid a peer r v
step-SystemValid (collects_members a r joined some_owner names) v = record {
  control = record { held = v.control.held; bounded = v.control.bounded };
  covered = λ r' controls e. (ground arith, ground arith, some_owner, λ p h. ground arith);
}
step-SystemValid (retires_member a p released) v =
    Keeps-SystemValid a _ v (refl, refl, λ q f h. h)
      (put-ControlValid p _ a.server v.control (inr (refl, refl, refl, refl)))
step-SystemValid (abandons_retirement a) v =
    abandon-SystemValid a _ (record { held = v.control.held; bounded = v.control.bounded })
step-SystemValid (finishes_retirement a now r controls e) v =
    abandon-SystemValid a _ (retire_finish-SystemValid a now r controls v e)
step-SystemValid (enqueues a identity c) v =
    Keeps-SystemValid a _ v (enqueue-Keeps identity c a.server)
      (enqueue-ControlValid identity c a.server v.control)
step-SystemValid (dispatches a t busy handle p) v =
    Keeps-SystemValid a _ v
      (dispatch_elim (Keeps a.server) t handle p a.server busy (refl, refl, λ q f h. h)
        (λ rest. (refl, refl, λ q f h. h)) (λ c rest. submit-Keeps handle c p rest a.server))
      (dispatch_elim ControlValid t handle p a.server busy v.control
        (λ rest. take-ControlValid p rest a.server v.control)
        (λ c rest. submit-ControlValid handle c p rest a.server v.control))
step-SystemValid (completes a work release result p) v =
    unfold complete in
    Keeps-SystemValid a _ v (refl, refl, λ q f h. h)
      (complete-ControlValid work release result p a.server v.control)
step-SystemValid (watches a now answer p) v =
    Keeps-SystemValid a _ v (dead_man-Keeps now answer p a.server)
      (dead_man-ControlValid now answer p a.server v.control)
step-SystemValid (publishes a robot p m e) v =
    Keeps-SystemValid a _ v (refl, refl, λ q f h. h)
      (put-ControlValid p m (record (a.server) { members = (robot, p) ∷ a.server.members })
        (record { held = v.control.held; bounded = v.control.bounded }) (inl e))
step-SystemValid (closes a p table) v =
    Keeps-SystemValid a _ v (refl, refl, λ q f h. h)
      (put-ControlValid p _ (record (a.server) { members = table })
        (record { held = v.control.held; bounded = v.control.bounded })
        (inr (refl, refl, refl, refl)))

pub Reach-SystemValid : {a b : System} → SystemValid a → Reach a b → SystemValid b
Reach-SystemValid v here = v
Reach-SystemValid v (next r st) = step-SystemValid st (Reach-SystemValid v r)

-- A server before its first controller: nothing is held and no retirement runs.
pub record Fresh (a : System) : Type 0 where
  pub unheld : (p : ℕ) → (a.server.object p).control_held ≡ false
  pub no_controls : a.server.control_members ≡ []
  pub no_retirement : a.retirement ≡ none

pub Fresh-SystemValid : {a : System} → Fresh a → SystemValid a
Fresh-SystemValid f = record {
  control = record {
    held = λ p h. ground (arith, f.unheld p);
    bounded = rw f.no_controls (omega arith);
  };
  covered = λ r controls e. ground (arith, f.no_retirement);
}

-- From a fresh server, after any interleaving of the critical sections of its handlers, of its
-- status streams, of its scheduler, of its table and of its drain, a member whose control is held
-- belongs to the controller that is installed, at a generation above the last one that it gave up,
-- and stands in the table of controls, which holds at most 256 members.
pub held_by_controller :
    {a b : System} (p : ℕ)
    → Fresh a
    → Reach a b
    → (b.server.object p).control_held ≡ true
    → ((b.server.object p).control_owner ≡ b.server.controller_generation)
      × (b.server.controller_generation ≢ 0)
      × ((b.server.object p).retired_control_generation < (b.server.object p).control_generation)
      × (contains p b.server.control_members ≡ true)
      × (length b.server.control_members ≤ 256)
held_by_controller p f r h =
    let v = Reach-SystemValid (Fresh-SystemValid f) r in
    let (o, n, g, c) = v.control.held p h in (o, n, g, c, v.control.bounded)
