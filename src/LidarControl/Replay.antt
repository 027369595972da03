-- ===== src/LidarControl/Replay.antt =====
-- A configuration that is sent twice (src/scene_ros1_adapter/src/lidar/control.cpp).
use xgc2_ros1_adapter.Common.{
  ℕ, zero, suc, ◌+◌, ◌≤◌, ◌<◌, ◌≡◌, ◌≢◌, refl, ◌∙◌, sym, ap, subst, inl, inr, true, false, none,
  some, update, bytes_eq, bytes_eq_refl, Bytes, Option-cases, arith,
}
use xgc2_ros1_adapter.LidarControl.State.{
  is_accepted, Operation, Control, complete, receipt, refused, receipt_of,
}
use xgc2_ros1_adapter.LidarControl.Request.{Request, Configure, configure_of}
use xgc2_ros1_adapter.LidarControl.Handle.{
  World, find_operation, find_slot, admit, admitted, start, repeated, configure,
}
use xgc2_ros1_adapter.LidarControl.Invariant.{ControlValid, find_slot-Free}

-- An id that no operation had is found where an operation with it was put.
find_operation-update :
    (left k i : ℕ) (id : Bytes) (o : Operation) (ops : ℕ → Operation)
    → find_operation left k id ops ≡ none
    → k ≤ i
    → i < k + left
    → o.id ≡ id
    → find_operation left k id (update ops i o) ≡ some i
unfolding find_operation
find_operation-update zero k i id o ops h a b e = absurd (omega arith)
find_operation-update (suc left) k i id o ops h a b e = ground (
  arith,
  find_operation-update left (k + 1) i id o ops,
  subst (λ j. bytes_eq j id ≡ true) (sym e) (bytes_eq_refl id),
)

-- An id that another operation has is not found at a new one.
find_operation_other :
    (left k i : ℕ) (id : Bytes) (o : Operation) (ops : ℕ → Operation)
    → find_operation left k id ops ≡ none
    → bytes_eq o.id id ≡ false
    → find_operation left k id (update ops i o) ≡ none
unfolding find_operation
find_operation_other zero k i id o ops h e = refl
find_operation_other (suc left) k i id o ops h e =
    ground (arith, find_operation_other left (k + 1) i id o ops)

module _ (x : World) (q : Request) (reply : ℕ) (c : Configure) (s : Control) where
  configure_new :
      configure_of q.parsed ≡ some c
      → find_operation 128 0 q.request_id s.operations ≡ none
      → configure x q reply s ≡ start x q reply c s
  unfolding configure
  configure_new e g = ground arith

  configure_known :
      (i : ℕ)
      → configure_of q.parsed ≡ some c
      → find_operation 128 0 q.request_id s.operations ≡ some i
      → configure x q reply s ≡ (repeated x q reply i s, false)
  unfolding configure
  configure_known i e g = ground arith

  -- A start that changes the revision has admitted the operation to a free slot.
  start_admitted :
      (start x q reply c s).0.desired_revision ≢ s.desired_revision
      → (i : ℕ) × (find_slot 128 0 none s.operations ≡ some i)
        × (c.expected_revision ≡ s.desired_revision)
        × ((start x q reply c s).0 ≡ admit x q reply c i s)
  unfolding start
  start_admitted h = elim (Option-cases (find_slot 128 0 none s.operations)) [
    | inl o ↦ absurd (h (ground (arith, o)))
    | inr (i, o) ↦ (i, o, ground (arith, o), ground (arith, o))
  ]

  start_stale :
      c.expected_revision ≢ s.desired_revision
      → start x q reply c s ≡ (complete reply (refused 409) s, false)
  unfolding start
  start_stale h = ground arith

repeated_same :
    (x : World) (q : Request) (reply : ℕ) (i : ℕ) (s : Control)
    → (s.operations i).fingerprint ≡ q.body
    → is_accepted (s.operations i).state ≡ true
    → repeated x q reply i s ≡ complete reply (receipt 202 (receipt_of (s.operations i))) s
unfolding repeated
repeated_same x q reply i s e a =
    ground (arith, subst (λ b. bytes_eq b q.body ≡ true) (sym e) (bytes_eq_refl q.body))

-- A configuration that is accepted is accepted once. It takes the place of no operation that is under
-- way and raises the desired revision by one; when the same request is sent again, it is answered with
-- the receipt of that operation and nothing else changes; and another request, of another id, that
-- expects the same revision is refused as a conflict and changes nothing else.
pub configure_once :
    (x x' : World) (q q' : Request) (reply reply' : ℕ) (c c' : Configure) (s : Control)
    → ControlValid s
    → configure_of q.parsed ≡ some c
    → configure_of q'.parsed ≡ some c'
    → find_operation 128 0 q.request_id s.operations ≡ none
    → find_operation 128 0 q'.request_id s.operations ≡ none
    → bytes_eq q.request_id q'.request_id ≡ false
    → c'.expected_revision ≡ c.expected_revision
    → let t = (configure x q reply s).0 in
      t.desired_revision ≢ s.desired_revision
      → (i : ℕ) × (is_accepted (s.operations i).state ≡ false)
        × (t ≡ admit x q reply c i s)
        × (configure x' q reply' t
            ≡ (complete reply' (receipt 202 (receipt_of (t.operations i))) t, false))
        × (configure x' q' reply' t ≡ (complete reply' (refused 409) t, false))
configure_once x x' q q' reply reply' c c' s v e e' g g' d r h =
    let n = configure_new x q reply c s e g in
    let a =
      start_admitted x q reply c s (subst (λ u. u.0.desired_revision ≢ s.desired_revision) n h) in
    let i = a.0 in
    let t = ap (λ u. u.0) n ∙ a.3 in
    let f = find_slot-Free 128 0 none s.operations i v.named tt a.1 in
    let k =
      find_operation-update 128 0 i q.request_id (admitted x q reply c (s.desired_revision + 1))
        s.operations g (omega arith) f.0 refl in
    let l =
      find_operation_other 128 0 i q'.request_id (admitted x q reply c (s.desired_revision + 1))
        s.operations g' d in
    let b = admit x q reply c i s in
    (
      i,
      f.1,
      t,
      subst
          (λ u.
            configure x' q reply' u
            ≡ (complete reply' (receipt 202 (receipt_of (u.operations i))) u, false))
          (sym t)
          (configure_known x' q reply' c b i e k
            ∙ ap (λ u. (u, false)) (repeated_same x' q reply' i b (ground arith) (ground arith))),
      subst (λ u. configure x' q' reply' u ≡ (complete reply' (refused 409) u, false)) (sym t)
          (configure_new x' q' reply' c' b e' l
            ∙ start_stale x' q' reply' c' b (λ z. omega (arith, a.2, r, z))),
    )
