-- ===== src/LidarControl/Posting.antt =====
-- Scheduled work of the lidar switch has its callback in the executor
-- (src/scene_ros1_adapter/src/lidar/control.cpp).
use xgc2_ros1_adapter.Common.{
  ℕ, zero, suc, ◌+◌, ◌≡◌, refl, sym, ◌∙◌, ◌⊎◌, inl, inr, Bool, true, false, List, [], ◌∷◌, none,
  not, ◌||◌, leb, ◌==◌, length, if_rule, option_rule, arith, Bytes, bytes_eq, is_some, codes,
  after_prefix,
}
use xgc2_ros1_adapter.LidarControl.State.{Control}
use xgc2_ros1_adapter.LidarControl.Request.{
  Request, Configure, parse_wait, maximum_revision, configure_of,
}
use xgc2_ros1_adapter.LidarControl.Handle.{
  World, find_operation, find_slot, name_of, no_route, gets_path, gets_target, posts_target,
  observe, start, repeated, configure, describe, operation_route, handle, cut_id,
}
use xgc2_ros1_adapter.LidarControl.Apply.{
  post_failed, apply_next, apply_done, expire_ready, stop, stop_operations, finish_accepted,
  take_next, posted, Section, handles, fails_post, takes, applies, expires, sets_ready, stops,
  section, run_sections,
}

abbrev pub HasCallback : Control → Type 0
HasCallback s = s.scheduled ≡ true → s.callback ≡ true

abbrev Unposted : Control → Control → Type 0
Unposted s t = (t.callback ≡ s.callback) × (t.scheduled ≡ s.scheduled)

-- What a handler leaves scheduled was scheduled before, or is to be posted.
abbrev Posts : Control → Control × Bool → Type 0
Posts s r = (r.0.callback ≡ s.callback) × ((r.0.scheduled ≡ s.scheduled) ⊎ (r.1 ≡ true))

unposted : (s t : Control) → Unposted s t → Posts s (t, false)
unposted s t u = (u.0, inl u.1)

module _ (x : World) (q : Request) (reply : ℕ) where
  admitted : (b : Bool) → ((true ≡ b) ⊎ (not b ≡ true))
  admitted true = inl refl
  admitted false = inr refl

  start-Posts : (c : Configure) (s : Control) → Posts s (start x q reply c s)
  unfolding start
  start-Posts c s =
      if_rule (Posts s) (not (c.expected_revision == s.desired_revision)) (λ e. (refl, inl refl))
        λ e.
          if_rule (Posts s) (leb 16 (length s.pending) || s.desired_revision == maximum_revision)
            (λ z. (refl, inl refl))
            λ z.
              option_rule (Posts s) (find_slot 128 0 none s.operations) (λ o. (refl, inl refl))
                (λ i o. (refl, admitted s.scheduled))

  repeated-Unposted : (i : ℕ) (s : Control) → Unposted s (repeated x q reply i s)
  unfolding repeated
  repeated-Unposted i s =
      if_rule (Unposted s) (bytes_eq (s.operations i).fingerprint q.body) (λ e. (refl, refl))
        (λ e. (refl, refl))

  observe-Unposted : (wait : Bool) (i : ℕ) (s : Control) → Unposted s (observe x q reply wait i s)
  unfolding observe
  observe-Unposted wait i s = (ground arith, ground arith)

  describe-Unposted : (s : Control) → Unposted s (describe x q reply s)
  unfolding describe
  describe-Unposted s =
      option_rule (Unposted s) (parse_wait q.target) (λ o. (refl, refl))
        λ wait o.
          if_rule (Unposted s) (s.ready || wait == 0) (λ e. (refl, refl)) (λ e. (refl, refl))

  operation_route-Unposted :
      (id : Bytes) (s : Control) → Unposted s (operation_route x q reply id s)
  unfolding operation_route
  operation_route-Unposted id s =
      if_rule (Unposted s) (no_route x q reply id) (λ e. (refl, refl))
        λ e.
          option_rule (Unposted s) (find_operation 128 0 (name_of x q reply id) s.operations)
            (λ o. (refl, refl)) (λ i o. observe-Unposted (is_some (cut_id x q reply id)) i s)

  configure-Posts : (s : Control) → Posts s (configure x q reply s)
  unfolding configure
  configure-Posts s =
      option_rule (Posts s) (configure_of q.parsed) (λ o. (refl, inl refl))
        λ c o.
          option_rule (Posts s) (find_operation 128 0 q.request_id s.operations)
            (λ g. start-Posts c s)
            (λ i g. unposted s (repeated x q reply i s) (repeated-Unposted i s))

  handle-Posts : (s : Control) → Posts s (handle x q reply s)
  unfolding handle
  handle-Posts s =
      if_rule (Posts s) s.stopping (λ e. (refl, inl refl))
        λ h.
          if_rule (Posts s) (gets_path x q reply "/v1/describe")
            (λ e. unposted s (describe x q reply s) (describe-Unposted s))
            λ e.
              if_rule (Posts s)
                (gets_target x q reply "/v1/status" || gets_target x q reply "/v1/health")
                (λ g. (refl, inl refl))
                λ g.
                  option_rule (Posts s) (after_prefix (codes "/v1/operations/") q.target)
                    (λ o.
                      if_rule (Posts s) (posts_target x q reply "/v1/configure")
                        (λ k. configure-Posts s) (λ k. (refl, inl refl)))
                    (λ id o.
                      unposted s (operation_route x q reply id s) (operation_route-Unposted id s))

posted-HasCallback :
    (s : Control) (r : Control × Bool) → HasCallback s → Posts s r → HasCallback (posted r)
posted-HasCallback s (t, true) h p = λ e. refl
posted-HasCallback s (t, false) h p = λ e. ground (arith, h, p)

pub apply_next-HasCallback : (s : Control) → HasCallback s → HasCallback (apply_next s)
unfolding apply_next
apply_next-HasCallback s h =
    option_rule HasCallback s.taken
      (λ t. if_rule HasCallback s.stopping (λ e f. cc f) (λ e. next s.pending)) (λ i t. h)
  where
    next : (l : List ℕ) → HasCallback (take_next l s)
    next [] f = cc f
    next (i ∷ l) f = h f

pub apply_done-HasCallback :
    (now later : ℕ) (returns : Bool) (s : Control)
    → HasCallback s
    → HasCallback (apply_done now later returns s)
unfolding apply_done
apply_done-HasCallback now later returns s h = λ e. ground (arith, h)

apply_done-Unposted :
    (now later : ℕ) (returns : Bool) (s : Control) → Unposted s (apply_done now later returns s)
unfolding apply_done
apply_done-Unposted now later returns s = (ground arith, ground arith)

expire_ready-Unposted : (x : World) (s : Control) → Unposted s (expire_ready x s)
unfolding expire_ready
expire_ready-Unposted x s = (ground arith, ground arith)

stop_operations-Unposted :
    (left i now : ℕ) (s : Control) → Unposted s (stop_operations left i now s)
unfolding stop_operations
stop_operations-Unposted zero i now s = (refl, refl)
stop_operations-Unposted (suc left) i now s =
    let k = stop_operations-Unposted left (i + 1) now (finish_accepted i now s) in
    (ground (arith, k.0), ground (arith, k.1))

stop-Unposted : (now : ℕ) (s : Control) → Unposted s (stop now s)
unfolding stop
stop-Unposted now s =
    if_rule (Unposted s) s.stopping (λ h. (refl, refl))
      (λ h. stop_operations-Unposted 128 0 now (record s { stopping = true }))

unposted-HasCallback : (s t : Control) → Unposted s t → HasCallback s → HasCallback t
unposted-HasCallback s t u h e = u.0 ∙ h (sym u.1 ∙ e)

section-HasCallback : (c : Section) (s : Control) → HasCallback s → HasCallback (section c s)
unfolding section
section-HasCallback (handles x q reply) s h =
    posted-HasCallback s (handle x q reply s) h (handle-Posts x q reply s)
section-HasCallback (fails_post now) s h = unfold post_failed in λ e. cc e
section-HasCallback takes s h =
    if_rule HasCallback s.callback (λ e. apply_next-HasCallback s h) (λ e. h)
section-HasCallback (applies now later returns) s h =
    unposted-HasCallback s (apply_done now later returns s)
      (apply_done-Unposted now later returns s) h
section-HasCallback (expires x) s h =
    unposted-HasCallback s (expire_ready x s) (expire_ready-Unposted x s) h
section-HasCallback (sets_ready ready) s h = h
section-HasCallback (stops now) s h = unposted-HasCallback s (stop now s) (stop-Unposted now s) h

pub run_sections-HasCallback :
    (cs : List Section) (s : Control) → HasCallback s → HasCallback (run_sections cs s)
unfolding run_sections
run_sections-HasCallback [] s h = h
run_sections-HasCallback (c ∷ cs) s h =
    run_sections-HasCallback cs (section c s) (section-HasCallback c s h)
