-- ===== src/LidarControl/Guarantee.antt =====
-- What the lidar switch promises of the operations that it accepts
-- (src/scene_ros1_adapter/src/lidar/control.cpp).
use mathlib.Core.Option.{some-injective}
use xgc2_ros1_adapter.Common.{
  ℕ, ◌-◌, ◌≤◌, ◌≡◌, refl, ap, subst, ◌⊎◌, inl, inr, Bool, true, false, List, [], ◌∷◌, none, some,
  length, contains, is_empty, arith, if_rule, if◌then◌else◌, All,
}
use xgc2_ros1_adapter.LidarControl.State.{Control, new_control, initial_control}
use xgc2_ros1_adapter.LidarControl.Apply.{apply_next, apply_done, Section, run_sections}
use xgc2_ros1_adapter.LidarControl.Invariant.{IsAccepted, ControlValid}
use xgc2_ros1_adapter.LidarControl.Posting.{
  HasCallback, apply_next-HasCallback, apply_done-HasCallback, run_sections-HasCallback,
}
use xgc2_ros1_adapter.LidarControl.Sections.{
  HasId, run_sections-ControlValid, initial_control-ControlValid, apply_next-ControlValid,
  apply_done-ControlValid,
}

initial_control-HasCallback : (enabled : Bool) → HasCallback (initial_control enabled)
initial_control-HasCallback enabled = λ h. cc h

-- An accepted operation is in the hands of the control thread, or waits for its callback, which the
-- executor has.
abbrev pub IsServed : ℕ → Control → Type 0
IsServed i s = (s.taken ≡ some i) ⊎ ((contains i s.pending ≡ true) × (s.callback ≡ true))

nonempty : (i : ℕ) (l : List ℕ) → contains i l ≡ true → is_empty l ≡ false
unfolding contains
nonempty i [] h = cc
nonempty i (j ∷ l) h = refl

served : {s : Control} → ControlValid s → HasCallback s → (i : ℕ) → IsAccepted i s → IsServed i s
served {s} v c i a = elim (v.under_way i a) [
  | inl p ↦ inr (p, c (v.posted (nonempty i s.pending p)))
  | inr t ↦ inl t
]

-- No accepted operation is lost: from a new control, after any order of the critical sections of the
-- HTTP thread, the control thread and the owner, in which every request has an id, each accepted
-- operation is in the hands of the control thread, or waits in the queue while the executor has the
-- callback that takes it; and there is none once the control is stopping. At most 16 operations wait,
-- and the applied revision is at most the desired one.
pub accepted-IsServed :
    (enabled : Bool) (s : Control) (cs : List Section)
    → new_control true enabled ≡ some s
    → All HasId cs
    → let t = run_sections cs s in
      ((i : ℕ) → IsAccepted i t → IsServed i t)
      × ((i : ℕ) → t.stopping ≡ true → ¬ IsAccepted i t)
      × (length t.pending ≤ 16)
      × (t.applied_revision ≤ t.desired_revision)
accepted-IsServed enabled s cs e n =
    let w = subst ControlValid (some-injective _ _ e) (initial_control-ControlValid enabled) in
    let v = run_sections-ControlValid cs s n w in
    let c =
      run_sections-HasCallback cs s
        (subst HasCallback (some-injective _ _ e) (initial_control-HasCallback enabled)) in
    (served v c, λ i h. (v.quiet h).1 i, v.capacity, v.current)

-- One round of `ApplyPending`, which runs where the executor has the callback: the times before and
-- after the operation is applied, and whether applying it returns.
pub record Round : Type 0 where
  pub now : ℕ
  pub later : ℕ
  pub returns : Bool

abbrev pub apply_round : Round → Control → Control
apply_round r s = apply_done r.now r.later r.returns (if s.callback then apply_next s else s)

unfoldable pub apply_rounds : List Round → Control → Control
apply_rounds [] s = s
apply_rounds (r ∷ rs) s = apply_rounds rs (apply_round r s)

abbrev rest : List ℕ → List ℕ
rest [] = []
rest (i ∷ l) = l

record Idle (s : Control) : Type 0 where
  valid : ControlValid s
  posted : HasCallback s
  free : s.taken ≡ none
  runs : s.stopping ≡ false

waiting_callback : (s : Control) → Idle s → s.callback ≡ false → s.pending ≡ []
waiting_callback s h f = none_waits s.pending (h.valid.posted)
  where
    none_waits : (l : List ℕ) → (is_empty l ≡ false → s.scheduled ≡ true) → l ≡ []
    none_waits [] p = refl
    none_waits (i ∷ l) p = absurd (cc (h.posted (p refl), f))

apply_round-Idle :
    (r : Round) (s : Control)
    → Idle s
    → Idle (apply_round r s) × ((apply_round r s).pending ≡ rest s.pending)
unfolding apply_next apply_done
apply_round-Idle r s h = (
  record {
    valid =
        apply_done-ControlValid r.now r.later r.returns (if s.callback then apply_next s else s)
          (if_rule ControlValid s.callback (λ e. apply_next-ControlValid s h.valid) (λ e. h.valid));
    posted =
        apply_done-HasCallback r.now r.later r.returns (if s.callback then apply_next s else s)
          (if_rule HasCallback s.callback (λ e. apply_next-HasCallback s h.posted) (λ e. h.posted));
    free = ground (arith, h.free, h.runs);
    runs = ground (arith, h.free, h.runs);
  },
  ground (arith, h.free, h.runs, waiting_callback s h),
)

length-rest : (l : List ℕ) → length (rest l) ≡ length l - 1
length-rest [] = omega arith
length-rest (i ∷ l) = omega arith

apply_rounds-Idle :
    (rs : List Round) (s : Control)
    → Idle s
    → length s.pending ≤ length rs
    → Idle (apply_rounds rs s) × (length (apply_rounds rs s).pending ≤ 0)
unfolding apply_rounds
apply_rounds-Idle [] s h l = (h, l)
apply_rounds-Idle (r ∷ rs) s h l =
    let k = apply_round-Idle r s h in
    apply_rounds-Idle rs (apply_round r s) k.0 (omega (arith, length-rest s.pending, ap length k.1))

empty_of_length : (l : List ℕ) → length l ≤ 0 → l ≡ []
empty_of_length [] h = refl
empty_of_length (i ∷ l) h = absurd (omega arith)

Idle-quiet : {s : Control} → Idle s → s.pending ≡ [] → (i : ℕ) → ¬ IsAccepted i s
unfolding contains
Idle-quiet {s} h e i a = elim (h.valid.under_way i a) [
  | inl p ↦ ground (arith, e)
  | inr t ↦ ground (arith, h.free)
]

-- Every accepted operation is finished: after any sections from a new control as before, when the
-- control thread is between two rounds and the control is not stopping, as many rounds as operations
-- wait leave the queue empty and no operation accepted, whether they are applied, fail or are late.
pub accepted_finished :
    (enabled : Bool) (s : Control) (cs : List Section) (rs : List Round)
    → new_control true enabled ≡ some s
    → All HasId cs
    → let t = run_sections cs s in
      t.taken ≡ none
      → t.stopping ≡ false
      → length t.pending ≤ length rs
      → ((apply_rounds rs t).pending ≡ []) × ((i : ℕ) → ¬ IsAccepted i (apply_rounds rs t))
accepted_finished enabled s cs rs e n f h l =
    let w = subst ControlValid (some-injective _ _ e) (initial_control-ControlValid enabled) in
    let v = run_sections-ControlValid cs s n w in
    let c =
      run_sections-HasCallback cs s
        (subst HasCallback (some-injective _ _ e) (initial_control-HasCallback enabled)) in
    let k =
      apply_rounds-Idle rs (run_sections cs s)
        (record { valid = v; posted = c; free = f; runs = h }) l in
    let empty = empty_of_length _ k.1 in (empty, Idle-quiet k.0 empty)
