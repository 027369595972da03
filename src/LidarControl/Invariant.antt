-- ===== src/LidarControl/Invariant.antt =====
-- What holds of the lidar switch in every state (src/scene_ros1_adapter/src/lidar/control.cpp).
use xgc2_ros1_adapter.Common.{
  ℕ, zero, suc, ◌+◌, ◌≤◌, ◌<◌, ◌≡◌, refl, ◌∙◌, sym, subst, ◌⊎◌, inl, inr, true, false, List, [],
  ◌∷◌, ◌++◌, Option, none, some, not, ◌&&◌, ◌==◌, length, contains, is_empty, Bool-cases, arith,
  if◌then◌else◌,
}
use xgc2_ros1_adapter.LidarControl.State.{is_accepted, Operation, Control}
use xgc2_ros1_adapter.LidarControl.Handle.{find_slot, earlier, better_slot}

abbrev pub Distinct : List ℕ → Type 0
Distinct [] = Unit
Distinct (i ∷ rest) = (contains i rest ≡ false) × Distinct rest

pub contains-append :
    (k i : ℕ) (xs : List ℕ) → contains k (xs ++ i ∷ []) ≡ (if contains k xs then true else k == i)
unfolding contains
contains-append k i [] = ground arith
contains-append k i (x ∷ xs) = ground (arith, contains-append k i xs)

pub Distinct-append :
    (i : ℕ) (xs : List ℕ) → contains i xs ≡ false → Distinct xs → Distinct (xs ++ i ∷ [])
unfolding contains
Distinct-append i [] h d = (refl, tt)
Distinct-append i (x ∷ xs) h d =
    (ground (arith, contains-append x i xs), Distinct-append i xs (ground arith) d.1)

-- The operation is under way: it waits for the control thread, or is in its hands.
abbrev pub UnderWay : ℕ → Control → Type 0
UnderWay i s = (contains i s.pending ≡ true) ⊎ (s.taken ≡ some i)

abbrev pub IsAccepted : ℕ → Control → Type 0
IsAccepted i s = is_accepted (s.operations i).state ≡ true

pub record ControlValid (s : Control) : Type 0 where
  pub under_way : (i : ℕ) → IsAccepted i s → UnderWay i s
  pub waiting : (i : ℕ) → contains i s.pending ≡ true → IsAccepted i s
  pub in_hand :
      (i : ℕ)
      → s.stopping ≡ false
      → s.taken ≡ some i
      → IsAccepted i s × (contains i s.pending ≡ false)
  pub distinct : Distinct s.pending
  pub capacity : length s.pending ≤ 16
  pub posted : is_empty s.pending ≡ false → s.scheduled ≡ true
  pub current : s.applied_revision ≤ s.desired_revision
  pub known : (i : ℕ) → (s.operations i).revision ≤ s.desired_revision
  pub named : (i : ℕ) → IsAccepted i s → is_empty (s.operations i).id ≡ false
  pub inside : (i : ℕ) → IsAccepted i s → i < 128
  pub quiet : s.stopping ≡ true → (s.pending ≡ []) × ((i : ℕ) → ¬ IsAccepted i s)

-- What the invariant reads is the same.
pub record SameCore (s t : Control) : Type 0 where
  pub states : (i : ℕ) → is_accepted (t.operations i).state ≡ is_accepted (s.operations i).state
  pub revisions : (i : ℕ) → (t.operations i).revision ≡ (s.operations i).revision
  pub ids : (i : ℕ) → (t.operations i).id ≡ (s.operations i).id
  pub pending : t.pending ≡ s.pending
  pub taken : t.taken ≡ s.taken
  pub stopping : t.stopping ≡ s.stopping
  pub scheduled : t.scheduled ≡ s.scheduled
  pub desired_revision : t.desired_revision ≡ s.desired_revision
  pub applied_revision : t.applied_revision ≡ s.applied_revision

pub SameCore-ControlValid : {s t : Control} → ControlValid s → SameCore s t → ControlValid t
SameCore-ControlValid {s} {t} v c = record {
  under_way =
      λ i a. let h = v.under_way i (sym (c.states i) ∙ a) in ground (arith, h, c.pending, c.taken);
  waiting = λ i h. c.states i ∙ v.waiting i (ground (arith, c.pending));
  in_hand = λ i h e.
      let w = v.in_hand i (sym c.stopping ∙ h) (sym c.taken ∙ e) in
      (c.states i ∙ w.0, ground (arith, w.1, c.pending));
  distinct = subst Distinct (sym c.pending) v.distinct;
  capacity = ground (arith, v.capacity, c.pending);
  posted = λ h. c.scheduled ∙ v.posted (ground (arith, c.pending));
  current = ground (arith, v.current, c.desired_revision, c.applied_revision);
  known = λ i. ground (arith, v.known i, c.revisions i, c.desired_revision);
  named = λ i a. ground (arith, v.named i (sym (c.states i) ∙ a), c.ids i);
  inside = λ i a. v.inside i (sym (c.states i) ∙ a);
  quiet = λ h.
      let w = v.quiet (sym c.stopping ∙ h) in
      (c.pending ∙ w.0, λ i a. w.1 i (sym (c.states i) ∙ a));
}

pub SameCore-refl : (s : Control) → SameCore s s
SameCore-refl s = record {
  states = λ i. refl;
  revisions = λ i. refl;
  ids = λ i. refl;
  pending = refl;
  taken = refl;
  stopping = refl;
  scheduled = refl;
  desired_revision = refl;
  applied_revision = refl;
}

-- A slot that is found holds no operation that is under way.
abbrev pub Free : Option (ℕ × ℕ) → ℕ → (ℕ → Operation) → Type 0
Free none bound ops = Unit
Free (some b) bound ops = (b.0 < bound) × (is_accepted (ops b.0).state ≡ false)

better_slot-Free :
    (i bound : ℕ) (best : Option (ℕ × ℕ)) (ops : ℕ → Operation)
    → i < bound
    → Free best bound ops
    → Free (better_slot i (ops i) best) bound ops
better_slot-Free i bound best ops h f =
    elim (Bool-cases (not (is_accepted (ops i).state) && earlier (ops i).completed best)) [
      | inl y ↦ rw y (h, ground arith)
      | inr y ↦ rw y f
    ]

Free-mono :
    (best : Option (ℕ × ℕ)) {a b : ℕ} (ops : ℕ → Operation)
    → a ≡ b
    → Free best a ops
    → Free best b ops
Free-mono best ops e f = subst (λ n. Free best n ops) e f

pub find_slot-Free :
    (left i : ℕ) (best : Option (ℕ × ℕ)) (ops : ℕ → Operation) (k : ℕ)
    → ((j : ℕ) → is_accepted (ops j).state ≡ true → is_empty (ops j).id ≡ false)
    → Free best (i + left) ops
    → find_slot left i best ops ≡ some k
    → (k < i + left) × (is_accepted (ops k).state ≡ false)
unfolding find_slot
find_slot-Free zero i none ops k n f h = cc
find_slot-Free zero i (some b) ops k n f h = ground (arith, f.0, f.1)
find_slot-Free (suc left) i best ops k n f h = elim (Bool-cases (is_empty (ops i).id)) [
  | inl y ↦ ground (arith, n i)
  | inr y ↦
      let g =
        Free-mono (better_slot i (ops i) best) {b = i + 1 + left} ops (omega arith)
          (better_slot-Free i (i + suc left) best ops (omega arith) f) in
      let r = find_slot-Free left (i + 1) (better_slot i (ops i) best) ops k n g (ground arith) in
      (omega (arith, r.0), r.1)
]
