-- ===== src/RobotServer/Joining.antt =====
-- What an answer of `releaseControl` (src/common/src/robot_server.cpp) is worth.
use xgc2_ros1_adapter.Common.{
  ℕ, ◌≡◌, refl, ◌⊎◌, inl, inr, Bool, true, false, ◌&&◌, ◌||◌, not, arith, if◌then◌else◌, contains,
  contains-erase, update_self,
}
use xgc2_ros1_adapter.RobotServer.State.{unknown, Result, refused, Server}
use xgc2_ros1_adapter.RobotServer.Release.{
  ReleaseRequest, Joined, start_finishing, retire_native_control, release_finish, release_native,
}

-- The member gave the control of a generation up.
abbrev pub Released : ℕ → ℕ → Server → Type 0
Released generation p t =
    ((t.object p).control_held ≡ false) × ((t.object p).retired_control_generation ≡ generation)

-- The native call succeeds, is not needed, or fails.
abbrev pub native_fails : Bool → ℕ → Server → Server → Bool
native_fails answer p s t =
    (s.object p).potential_motion && not ((t.object p).native_stopped || answer)

-- How the native call leaves the member: `u` is the state in which it returned.
abbrev pub NativeFailed : ℕ → (u : Server) → Server × Result Joined → Type 0
NativeFailed p u result =
    (result.1 ≡ refused unknown)
    × (result.0.control_members ≡ u.control_members)
    × (result.0.object p ≡ record (u.object p) { control_finishing = false })

abbrev pub NativeReleased : ℕ → (u : Server) → Server × Result Joined → Type 0
NativeReleased p u result =
    Released (u.object p).control_generation p result.0
    × ((result.0.object p).potential_motion ≡ false)
    × (contains p result.0.control_members ≡ false)

abbrev NativeOutcome : Bool → ℕ → (u : Server) → Server × Result Joined → Type 0
NativeOutcome fails p u result =
    ((fails ≡ true) × NativeFailed p u result) ⊎ ((fails ≡ false) × NativeReleased p u result)

release_finish_outcome :
    (success : Bool) (r : ReleaseRequest) (p : ℕ) (u : Server)
    → NativeOutcome (not success) p u (release_finish success r p u)
unfolding release_finish
release_finish_outcome false r p u = inl (refl, (refl, refl, update_self u.object p _))
release_finish_outcome true r p u = inr (
  refl,
  (
    (ground arith, ground arith),
    ground arith,
    ground (arith, contains-erase p p u.control_members),
  ),
)

fails_of :
    (potential stopped answer : Bool)
    → (potential && not (stopped || answer)) ≡ not (if potential then stopped || answer else true)
fails_of false stopped answer = refl
fails_of true stopped answer = refl

-- A release that reaches the native call either fails as unknown, and then leaves the member as
-- the native call left it but for `control_finishing`, so that the same release can be tried
-- again; or it gives the member up, with no motion left and out of the table of controls.
pub release_native_outcome :
    (answer : Bool) (others : Server → Server) (r : ReleaseRequest) (p : ℕ) (s : Server)
    → let u = others (start_finishing p s) in
      ((native_fails answer p s u ≡ true) × NativeFailed p u (release_native answer others r p s))
      ⊎ ((native_fails answer p s u ≡ false)
          × NativeReleased p u (release_native answer others r p s))
unfolding release_native retire_native_control
release_native_outcome answer others r p s =
    let u = others (start_finishing p s) in
    rw (fails_of (s.object p).potential_motion (u.object p).native_stopped answer)
      (release_finish_outcome _ r p u)

-- The member has no control, and the generation that it gave up last is the requested one, or the
-- one that it has.
abbrev pub LeftUncontrolled : ℕ → ℕ → Server → Type 0
LeftUncontrolled generation p t =
    ((t.object p).control_held ≡ false)
    × (((t.object p).retired_control_generation ≡ generation)
        ⊎ ((t.object p).retired_control_generation ≡ (t.object p).control_generation))
