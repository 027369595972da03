-- ===== src/RobotServer/Rate.antt =====
-- The rate of renewals: `renewControl` (src/common/src/robot_server.cpp) among the other critical
-- sections.
use xgc2_ros1_adapter.Common.{
  ℕ, ◌+◌, ◌*◌, ◌≤◌, ◌<◌, ◌≡◌, refl, ◌≢◌, sym, ◌∙◌, ◌⊎◌, inl, inr, Bool, true, false, List, [], ◌∷◌,
  ap, subst, Bool-cases, ◌==◌, Option, none, some, arith, Bytes,
}
use xgc2_ros1_adapter.RobotServer.State.{
  MemberIdentity, Command, Result-cases, done, Binding, Server, ns_per_ms, controller_grant_locked,
  controller_credential,
}
use xgc2_ros1_adapter.RobotServer.Control.{
  AcquireRequest, acquire_admit, acquire_hold, acquire_commit,
}
use xgc2_ros1_adapter.RobotServer.Renewal.{
  Renewal, RenewRequest, too_fast, renew_entry, renew_begin, renew_one, renew_each, renew_commit,
}
use xgc2_ros1_adapter.RobotServer.Release.{
  ReleaseRequest, release_begin, start_finishing, release_finish, end_wait,
}
use xgc2_ros1_adapter.RobotServer.Controller.{InstallRequest, install_controller, install_owner}
use xgc2_ros1_adapter.RobotServer.Retirement.{
  RetireRequest, retire_begin, retire_finish, give_up_one, give_up,
}
use xgc2_ros1_adapter.RobotServer.Dispatch.{enqueue, dispatch, submit, complete, dead_man}
use xgc2_ros1_adapter.RobotServer.Status.{
  StatusOwner, admit_owned_status, ready_status, status_done, release_status, retire_status_begin,
}
use xgc2_ros1_adapter.RobotServer.Drain.{stop_native, stop_control}
use xgc2_ros1_adapter.RobotServer.Cases.{renew_commit_elim, dispatch_elim}
use xgc2_ros1_adapter.RobotServer.Interleaving.{
  System, Section, acquires, begins_renewal, renews, begins_release, starts_native_release,
  finishes_release, ends_wait, admits_status, readies_status, ends_status, releases_status,
  retires_status, finishes_server, installs, begins_retirement, collects_members, retires_member,
  abandons_retirement, finishes_retirement, enqueues, dispatches, completes, watches, publishes,
  closes, stops_native, stops_control, Reach, here, next,
}
use xgc2_ros1_adapter.RobotServer.Keeps.{install_controller_owned}
use xgc2_ros1_adapter.RobotServer.Ownership.{
  SystemValid, step-SystemValid, Reach-SystemValid, Fresh, Fresh-SystemValid,
}

-- A section that leaves the owner, the owner before it and the rate edge alone.
abbrev Rated : Server → Server → Type 0
Rated s t =
    (t.controller_generation ≡ s.controller_generation)
    × (t.last_control_renewal ≡ s.last_control_renewal)
    × (t.retired_controller_generation ≡ s.retired_controller_generation)

acquire_commit-Rated :
    (now : ℕ) (c : Bool) (r : AcquireRequest) (p : ℕ) (s : Server)
    → Rated s (acquire_commit now c r p s).0
unfolding acquire_commit acquire_hold
acquire_commit-Rated now c r p s = elim (Result-cases (acquire_admit c r (s.object p) s)) [
  | inl (_, e) ↦ rw (e, acquire_commit) (ground arith, ground arith, ground arith)
  | inr (x, e) ↦ rw (e, acquire_commit) (refl, refl, refl)
]

renew_one-Rated :
    (now : ℕ) (r : Renewal) (p : Option ℕ) (s : Server) → Rated s (renew_one now r p s).0
unfolding renew_one
renew_one-Rated now r none s = (refl, refl, refl)
renew_one-Rated now r (some p) s = (ground arith, ground arith, ground arith)

renew_each-Rated :
    (now : ℕ) (found : List (Renewal × Option ℕ)) (s : Server) → Rated s (renew_each now found s).0
unfolding renew_each
renew_each-Rated now [] s = (refl, refl, refl)
renew_each-Rated now ((r, p) ∷ rest) s =
    let k = renew_one-Rated now r p s in
    let l = renew_each-Rated now rest (renew_one now r p s).0 in (l.0 ∙ k.0, l.1 ∙ k.1, l.2 ∙ k.2)

release_begin-Rated :
    (now : ℕ) (c : Bool) (r : ReleaseRequest) (p : ℕ) (s : Server)
    → Rated s (release_begin now c r p s).0
unfolding release_begin
release_begin-Rated now c r p s = (ground arith, ground arith, ground arith)

release_finish-Rated :
    (success : Bool) (r : ReleaseRequest) (p : ℕ) (s : Server)
    → Rated s (release_finish success r p s).0
unfolding release_finish
release_finish-Rated success r p s = (ground arith, ground arith, ground arith)

admit_owned_status-Rated :
    (call : ℕ) (control known : Bool) (o : Option StatusOwner) (s : Server)
    → Rated s (admit_owned_status call control known o s).0
unfolding admit_owned_status
admit_owned_status-Rated call control known none s = (refl, refl, refl)
admit_owned_status-Rated call true known (some o) s = (ground arith, ground arith, ground arith)
admit_owned_status-Rated call false known (some o) s = (ground arith, ground arith, ground arith)

ready_status-Rated :
    (call : ℕ) (control : Bool) (s : Server) → Rated s (ready_status call control s).0
unfolding ready_status
ready_status-Rated call control s = (ground arith, ground arith, ground arith)

status_done-Rated : (call : ℕ) (control : Bool) (s : Server) → Rated s (status_done call control s)
unfolding status_done
status_done-Rated call control s = (ground arith, ground arith, ground arith)

release_status-Rated :
    (call : ℕ) (control : Bool) (s : Server) → Rated s (release_status call control s)
unfolding release_status
release_status-Rated call control s = (ground arith, ground arith, ground arith)

retire_status_begin-Rated :
    (control : Bool) (o : StatusOwner) (s : Server) → Rated s (retire_status_begin control o s).0
unfolding retire_status_begin
retire_status_begin-Rated true o s = (ground arith, ground arith, ground arith)
retire_status_begin-Rated false o s = (ground arith, ground arith, ground arith)

retire_begin-Rated :
    (peer : Bytes) (r : RetireRequest) (s : Server) → Rated s (retire_begin peer r s).0
unfolding retire_begin
retire_begin-Rated peer r s = (ground arith, ground arith, ground arith)

enqueue-Rated :
    (identity : MemberIdentity) (c : Command) (s : Server) → Rated s (enqueue identity c s).0
unfolding enqueue
enqueue-Rated identity c s = (ground arith, ground arith, ground arith)

submit-Rated :
    (handle : ℕ) (c : Command) (p : ℕ) (rest : List Command) (s : Server)
    → Rated s (submit handle c p (record (s.object p) { commands = rest }) s)
unfolding submit
submit-Rated handle c p rest s = (refl, refl, refl)

dead_man-Rated : (now : ℕ) (answer : Bool) (p : ℕ) (s : Server) → Rated s (dead_man now answer p s)
unfolding dead_man
dead_man-Rated now answer p s = (ground arith, ground arith, ground arith)

give_up-Rated :
    (now generation : ℕ) (ps : List ℕ) (s : Server) → Rated s (give_up now generation ps s)
unfolding give_up give_up_one
give_up-Rated now generation [] s = (refl, refl, refl)
give_up-Rated now generation (p ∷ ps) s =
    let k = give_up-Rated now generation ps (give_up_one now generation p s) in
    (ground (arith, k.0), ground (arith, k.1), ground (arith, k.2))

-- The owner of generation `g` has taken the rate edge at `now` or later, or it is gone for good.
abbrev Spent : (now g : ℕ) → Server → Type 0
Spent now g s =
    ((s.controller_generation ≡ g)
      × (last : ℕ) × (s.last_control_renewal ≡ some last)
      × (now ≤ last))
    ⊎ ((g ≤ s.retired_controller_generation)
        × ((s.controller_generation ≡ 0) ⊎ (g < s.controller_generation)))

Rated-Spent : (now g : ℕ) (s t : Server) → Rated s t → Spent now g s → Spent now g t
Rated-Spent now g s t k (inl (e, last, l, h)) = inl (k.0 ∙ e, last, k.1 ∙ l, h)
Rated-Spent now g s t k (inr (h, x)) = inr (ground (arith, k.2, h), ground (arith, k.0, x))

-- What an admitted first section found, and what it leaves.
renew_entry_apart :
    (now last : ℕ) (c : Bool) (r : RenewRequest) (s : Server)
    → renew_entry now c r s ≡ done tt
    → s.last_control_renewal ≡ some last
    → last + 50 * ns_per_ms ≤ now
unfolding renew_entry too_fast
renew_entry_apart now last c r s h e = ground (arith, h, e)

renew_entry_owner :
    (now : ℕ) (c : Bool) (r : RenewRequest) (s : Server)
    → renew_entry now c r s ≡ done tt
    → s.controller_generation ≢ 0
unfolding renew_entry controller_grant_locked controller_credential
renew_entry_owner now c r s h = λ e. ground (arith, h, e)

renew_begin_done :
    (now : ℕ) (c : Bool) (r : RenewRequest) (s t : Server)
    → renew_begin now c r s ≡ (t, done tt)
    → (renew_entry now c r s ≡ done tt) × (t ≡ record s { last_control_renewal = some now })
unfolding renew_begin
renew_begin_done now c r s t h = elim (Result-cases (renew_entry now c r s)) [
  | inl (_, e) ↦ (e, sym (ap (λ z. z.0) (rw (e, renew_begin) at h)))
  | inr (x, e) ↦ absurd (cc (rw (e, renew_begin) at h))
]

renew_begin-Spent :
    (now g later : ℕ) (c : Bool) (r : RenewRequest) (s : Server)
    → Spent now g s
    → Spent now g (renew_begin later c r s).0
unfolding renew_begin
renew_begin-Spent now g later c r s v = elim (Result-cases (renew_entry later c r s)) [
  | inr (x, e) ↦ rw (e, renew_begin) v
  | inl (_, e) ↦
      rw (e, renew_begin)
        (elim v [
          | inr k ↦ inr k
          | inl (f, last, l, h) ↦
              inl (f, later, refl, omega (arith, h, renew_entry_apart later last c r s e l))
        ])
]

install_later :
    (g : ℕ) (equals : Binding → Binding → Bool) (peer : Bytes) (r : InstallRequest) (s : Server)
    → s.controller_generation ≡ 0
    → g ≤ s.retired_controller_generation
    → let t = (install_controller equals peer r s).0 in
      (g ≤ t.retired_controller_generation)
      × ((t.controller_generation ≡ 0) ⊎ (g < t.controller_generation))
unfolding install_controller install_owner
install_later g equals peer r s e h = (ground (arith, e, h), ground (arith, e, h))

install_controller-Spent :
    (now g : ℕ) (equals : Binding → Binding → Bool) (peer : Bytes) (r : InstallRequest) (s : Server)
    → g ≢ 0
    → Spent now g s
    → Spent now g (install_controller equals peer r s).0
install_controller-Spent now g equals peer r s n (inl (e, last, l, h)) =
    subst (Spent now g) (sym (install_controller_owned equals peer r s (λ z. n (sym e ∙ z))))
      (inl (e, last, l, h))
install_controller-Spent now g equals peer r s n (inr (h, inl e)) =
    inr (install_later g equals peer r s e h)
install_controller-Spent now g equals peer r s n (inr (h, inr l)) =
    subst (Spent now g) (sym (install_controller_owned equals peer r s (λ z. omega (arith, l, z))))
      (inr (h, inr l))

retire_finish-Spent :
    (now g at : ℕ) (r : RetireRequest) (controls : List ℕ) (s : Server)
    → s.controller_generation ≢ 0
    → Spent now g s
    → Spent now g (retire_finish at r controls s).0
unfolding retire_finish
retire_finish-Spent now g at r controls s n v = elim (Bool-cases (s.controller_work == 0)) [
  | inr e ↦ rw (e, retire_finish) v
  | inl e ↦
      rw (e, retire_finish)
        (inr (ground (arith, n, v, give_up-Rated at r.generation controls s), inl refl))
]

step-Spent :
    {a b : System} (now g : ℕ)
    → g ≢ 0
    → Section a b
    → SystemValid a
    → Spent now g a.server
    → Spent now g b.server
step-Spent now g n (acquires a t c r p) v h =
    Rated-Spent now g a.server (acquire_commit t c r p a.server).0
      (acquire_commit-Rated t c r p a.server) h
step-Spent now g n (begins_renewal a t c r) v h = renew_begin-Spent now g t c r a.server h
step-Spent now g n (renews a t c r found) v h =
    Rated-Spent now g a.server (renew_commit t c r found a.server).0
      (renew_commit_elim (Rated a.server) t c r found a.server (refl, refl, refl)
        (renew_each-Rated t found a.server))
      h
step-Spent now g n (begins_release a t c r p) v h =
    Rated-Spent now g a.server (release_begin t c r p a.server).0
      (release_begin-Rated t c r p a.server) h
step-Spent now g n (starts_native_release a p) v h = unfold start_finishing in h
step-Spent now g n (finishes_release a success r p) v h =
    Rated-Spent now g a.server (release_finish success r p a.server).0
      (release_finish-Rated success r p a.server) h
step-Spent now g n (ends_wait a p) v h = unfold end_wait in h
step-Spent now g n (admits_status a call control known o) v h =
    Rated-Spent now g a.server (admit_owned_status call control known o a.server).0
      (admit_owned_status-Rated call control known o a.server) h
step-Spent now g n (readies_status a call control) v h =
    Rated-Spent now g a.server (ready_status call control a.server).0
      (ready_status-Rated call control a.server) h
step-Spent now g n (ends_status a call control) v h =
    Rated-Spent now g a.server (status_done call control a.server)
      (status_done-Rated call control a.server) h
step-Spent now g n (releases_status a call control) v h =
    Rated-Spent now g a.server (release_status call control a.server)
      (release_status-Rated call control a.server) h
step-Spent now g n (retires_status a control o) v h =
    Rated-Spent now g a.server (retire_status_begin control o a.server).0
      (retire_status_begin-Rated control o a.server) h
step-Spent now g n (finishes_server a) v h = h
step-Spent now g n (installs a equals peer r) v h =
    install_controller-Spent now g equals peer r a.server n h
step-Spent now g n (begins_retirement a peer r) v h =
    Rated-Spent now g a.server (retire_begin peer r a.server).0 (retire_begin-Rated peer r a.server)
      h
step-Spent now g n (collects_members a r joined some_owner names) v h = h
step-Spent now g n (retires_member a p released) v h = h
step-Spent now g n (abandons_retirement a) v h = h
step-Spent now g n (finishes_retirement a at r controls e) v h =
    retire_finish-Spent now g at r controls a.server (v.covered r controls e).2 h
step-Spent now g n (enqueues a identity c) v h =
    Rated-Spent now g a.server (enqueue identity c a.server).0 (enqueue-Rated identity c a.server) h
step-Spent now g n (dispatches a t busy handle p) v h =
    Rated-Spent now g a.server (dispatch t busy handle p a.server).0
      (dispatch_elim (Rated a.server) t handle p a.server busy (refl, refl, refl)
        (λ rest. (refl, refl, refl)) (λ c rest. submit-Rated handle c p rest a.server))
      h
step-Spent now g n (completes a work release result p) v h =
    Rated-Spent now g a.server (complete work release result p a.server)
      (unfold complete in (refl, refl, refl)) h
step-Spent now g n (watches a t answer p) v h =
    Rated-Spent now g a.server (dead_man t answer p a.server) (dead_man-Rated t answer p a.server) h
step-Spent now g n (publishes a robot p m e) v h = h
step-Spent now g n (closes a p table) v h = h
step-Spent now g n (stops_native a p) v h = unfold stop_native in h
step-Spent now g n (stops_control a p) v h = unfold stop_control in h

Reach-Spent :
    {a b : System} (now g : ℕ)
    → g ≢ 0
    → SystemValid a
    → Spent now g a.server
    → Reach a b
    → Spent now g b.server
Reach-Spent now g n v h here = h
Reach-Spent now g n v h (next r st) =
    step-Spent now g n st (Reach-SystemValid v r) (Reach-Spent now g n v h r)

apart :
    (now later g : ℕ) (c : Bool) (r : RenewRequest) (s : Server)
    → Spent now g s
    → s.controller_generation ≡ g
    → g ≢ 0
    → renew_entry later c r s ≡ done tt
    → now + 50 * ns_per_ms ≤ later
apart now later g c r s (inl (e, last, l, h)) same n d =
    omega (arith, h, renew_entry_apart later last c r s d l)
apart now later g c r s (inr (h, inl e)) same n d = absurd (n (sym same ∙ e))
apart now later g c r s (inr (h, inr l)) same n d = absurd (omega (arith, l, same))

-- Renewals of one owner are at least 50 ms apart: in any interleaving of the critical sections that
-- starts from a fresh server, when a batch is admitted by the first section of `renewControl` and
-- another one later, while the controller has the same generation, then the second one comes 50 ms
-- after the first or later.
pub renew_begin_apart :
    {a b d : System} (now later : ℕ) (c c' : Bool) (r r' : RenewRequest) (t u : Server)
    → Fresh a
    → Reach a b
    → renew_begin now c r b.server ≡ (t, done tt)
    → Reach (record b { server = t }) d
    → d.server.controller_generation ≡ b.server.controller_generation
    → renew_begin later c' r' d.server ≡ (u, done tt)
    → now + 50 * ns_per_ms ≤ later
renew_begin_apart {a} {b} {d} now later c c' r r' t u f w h x same k =
    let (e, left) = renew_begin_done now c r b.server t h in
    let n = renew_entry_owner now c r b.server e in
    let g = b.server.controller_generation in
    let v : SystemValid (record b { server = t }) =
      subst (λ z. SystemValid (record b { server = z })) (ap (λ z. z.0) h)
        (step-SystemValid (begins_renewal b now c r) (Reach-SystemValid (Fresh-SystemValid f) w)) in
    let spent : Spent now g t = inl (
      ap (λ z. z.controller_generation) left,
      now,
      ap (λ z. z.last_control_renewal) left,
      omega arith,
    ) in
    apart now later g c' r' d.server (Reach-Spent now g n v spent x) same n
      (renew_begin_done later c' r' d.server u k).0
