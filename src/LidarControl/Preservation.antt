-- ===== src/LidarControl/Preservation.antt =====
-- Every section keeps the invariant of the lidar switch
-- (src/scene_ros1_adapter/src/lidar/control.cpp).
use xgc2_ros1_adapter.Common.{
  ℕ, ◌<◌, ◌≡◌, refl, Bool, false, List, [], ◌∷◌, none, not, ◌||◌, leb, ◌==◌, length, length-append,
  is_empty, if_rule, option_rule, arith, Bytes, bytes_eq, is_some, codes, after_prefix,
}
use xgc2_ros1_adapter.LidarControl.State.{ReadyWaiter, Response, complete, is_accepted, Control}
use xgc2_ros1_adapter.LidarControl.Request.{
  Request, Configure, parse_wait, maximum_revision, configure_of,
}
use xgc2_ros1_adapter.LidarControl.Handle.{
  World, find_operation, find_slot, cut_id, name_of, no_route, gets_path, gets_target, posts_target,
  observe, admit, start, repeated, configure, describe, operation_route, handle,
}
use xgc2_ros1_adapter.LidarControl.Invariant.{
  contains-append, Distinct-append, ControlValid, SameCore, SameCore-ControlValid, find_slot-Free,
}

abbrev Keeps : Control × Bool → Type 0
Keeps r = ControlValid r.0

complete-SameCore : (reply : ℕ) (r : Response) (s : Control) → SameCore s (complete reply r s)
complete-SameCore reply r s = record {
  states = λ i. refl;
  revisions = λ i. refl;
  ids = λ i. refl;
  pending = refl;
  taken = refl;
  stopping = refl;
  scheduled = refl;
  desired_revision = refl;
  applied_revision = refl;
}

awaits-SameCore :
    (ws : List ReadyWaiter) (s : Control) → SameCore s (record s { ready_waiters = ws })
awaits-SameCore ws s = record {
  states = λ i. refl;
  revisions = λ i. refl;
  ids = λ i. refl;
  pending = refl;
  taken = refl;
  stopping = refl;
  scheduled = refl;
  desired_revision = refl;
  applied_revision = refl;
}

complete-ControlValid :
    {s : Control} (reply : ℕ) (r : Response) → ControlValid s → ControlValid (complete reply r s)
complete-ControlValid {s} reply r v = SameCore-ControlValid v (complete-SameCore reply r s)

module _ (x : World) (q : Request) (reply : ℕ) where
  admit-ControlValid :
      (c : Configure) (i : ℕ) (s : Control)
      → is_empty q.request_id ≡ false
      → s.stopping ≡ false
      → i < 128
      → is_accepted (s.operations i).state ≡ false
      → length s.pending < 16
      → ControlValid s
      → ControlValid (admit x q reply c i s)
  admit-ControlValid c i s n h l f k v = record {
    under_way = λ j a. ground (arith, v.under_way j, contains-append j i s.pending);
    waiting = λ j e. ground (arith, v.waiting j, contains-append j i s.pending);
    in_hand = λ j e t. ground (arith, v.in_hand j h t, contains-append j i s.pending);
    distinct = Distinct-append i s.pending (ground (arith, v.waiting i)) v.distinct;
    capacity = omega (arith, length-append s.pending (i ∷ []));
    posted = λ e. refl;
    current = omega (arith, v.current);
    known = λ j. ground (arith, v.known j);
    named = λ j a. ground (arith, v.named j);
    inside = λ j a. ground (arith, v.inside j);
    quiet = λ e. ground arith;
  }

  start-ControlValid :
      (c : Configure) (s : Control)
      → is_empty q.request_id ≡ false
      → s.stopping ≡ false
      → ControlValid s
      → ControlValid (start x q reply c s).0
  unfolding start
  start-ControlValid c s n h v =
      if_rule Keeps (not (c.expected_revision == s.desired_revision))
        (λ e. complete-ControlValid reply _ v)
        λ e.
          if_rule Keeps (leb 16 (length s.pending) || s.desired_revision == maximum_revision)
            (λ z. complete-ControlValid reply _ v)
            λ z.
              option_rule Keeps (find_slot 128 0 none s.operations)
                (λ o. complete-ControlValid reply _ v)
                λ i o.
                  let f = find_slot-Free 128 0 none s.operations i v.named tt o in
                  admit-ControlValid c i s n h f.0 f.1 (ground arith) v

  observe-SameCore : (wait : Bool) (i : ℕ) (s : Control) → SameCore s (observe x q reply wait i s)
  unfolding observe
  observe-SameCore wait i s = record {
    states = λ j. ground arith;
    revisions = λ j. ground arith;
    ids = λ j. ground arith;
    pending = ground arith;
    taken = ground arith;
    stopping = ground arith;
    scheduled = ground arith;
    desired_revision = ground arith;
    applied_revision = ground arith;
  }

  describe-SameCore : (s : Control) → SameCore s (describe x q reply s)
  unfolding describe
  describe-SameCore s =
      option_rule (SameCore s) (parse_wait q.target) (λ o. complete-SameCore reply _ s)
        λ wait o.
          if_rule (SameCore s) (s.ready || wait == 0) (λ e. complete-SameCore reply _ s)
            (λ e. awaits-SameCore _ s)

  operation_route-SameCore :
      (id : Bytes) (s : Control) → SameCore s (operation_route x q reply id s)
  unfolding operation_route
  operation_route-SameCore id s =
      if_rule (SameCore s) (no_route x q reply id) (λ e. complete-SameCore reply _ s)
        λ e.
          option_rule (SameCore s) (find_operation 128 0 (name_of x q reply id) s.operations)
            (λ o. complete-SameCore reply _ s)
            (λ i o. observe-SameCore (is_some (cut_id x q reply id)) i s)

  repeated-SameCore : (i : ℕ) (s : Control) → SameCore s (repeated x q reply i s)
  unfolding repeated
  repeated-SameCore i s =
      if_rule (SameCore s) (bytes_eq (s.operations i).fingerprint q.body)
        (λ e. complete-SameCore reply _ s) (λ e. complete-SameCore reply _ s)

  configure-ControlValid :
      (s : Control)
      → is_empty q.request_id ≡ false
      → s.stopping ≡ false
      → ControlValid s
      → ControlValid (configure x q reply s).0
  unfolding configure
  configure-ControlValid s n h v =
      option_rule Keeps (configure_of q.parsed) (λ o. complete-ControlValid reply _ v)
        λ c o.
          option_rule Keeps (find_operation 128 0 q.request_id s.operations)
            (λ g. start-ControlValid c s n h v)
            (λ i g. SameCore-ControlValid v (repeated-SameCore i s))

  pub handle-ControlValid :
      (s : Control)
      → is_empty q.request_id ≡ false
      → ControlValid s
      → ControlValid (handle x q reply s).0
  unfolding handle
  handle-ControlValid s n v =
      if_rule Keeps s.stopping (λ e. complete-ControlValid reply _ v)
        λ h.
          if_rule Keeps (gets_path x q reply "/v1/describe")
            (λ e. SameCore-ControlValid v (describe-SameCore s))
            λ e.
              if_rule Keeps
                (gets_target x q reply "/v1/status" || gets_target x q reply "/v1/health")
                (λ g. complete-ControlValid reply _ v)
                λ g.
                  option_rule Keeps (after_prefix (codes "/v1/operations/") q.target)
                    (λ o.
                      if_rule Keeps (posts_target x q reply "/v1/configure")
                        (λ k. configure-ControlValid s n h v)
                        (λ k. complete-ControlValid reply _ v))
                    (λ id o. SameCore-ControlValid v (operation_route-SameCore id s))
