-- ===== src/LidarControl/Sections.antt =====
-- The control thread and the owner keep the invariant of the lidar switch
-- (src/scene_ros1_adapter/src/lidar/control.cpp).
use xgc2_ros1_adapter.Common.{
  ℕ, zero, suc, ◌+◌, ◌≤◌, ◌≡◌, refl, ◌∙◌, sym, subst, ◌⊎◌, Bool, true, false, List, [], ◌∷◌, Option,
  none, some, leb, ltb, ◌&&◌, ◌==◌, length, contains, is_empty, if_rule, option_rule, arith,
  if◌then◌else◌, All,
}
use xgc2_ros1_adapter.LidarControl.State.{
  is_accepted, Response, Control, finish, Failure, internal, initial_control,
}
use xgc2_ros1_adapter.LidarControl.Handle.{World, handle}
use xgc2_ros1_adapter.LidarControl.Apply.{
  finish_all, post_failed, apply_next, apply_done, expire_ready, stop, stop_operations, take_next,
  apply_returns, posted, finish_accepted, applied_with, apply_failure, Section, handles, fails_post,
  takes, applies, expires, sets_ready, stops, section, run_sections,
}
use xgc2_ros1_adapter.LidarControl.Invariant.{
  Distinct, IsAccepted, ControlValid, SameCore-ControlValid,
}
use xgc2_ros1_adapter.LidarControl.Preservation.{handle-ControlValid}

-- Some operations are finished, and nothing else that the invariant reads is changed.
record Finishes (ends : ℕ → Bool) (s t : Control) : Type 0 where
  states :
      (j : ℕ)
      → is_accepted (t.operations j).state
        ≡ (if ends j then false else is_accepted (s.operations j).state)
  revisions : (j : ℕ) → (t.operations j).revision ≡ (s.operations j).revision
  ids : (j : ℕ) → (t.operations j).id ≡ (s.operations j).id
  pending : t.pending ≡ s.pending
  taken : t.taken ≡ s.taken
  stopping : t.stopping ≡ s.stopping
  scheduled : t.scheduled ≡ s.scheduled
  desired_revision : t.desired_revision ≡ s.desired_revision
  applied_revision : t.applied_revision ≡ s.applied_revision

finish-Finishes :
    (i : ℕ) (f : Option Failure) (now : ℕ) (s : Control)
    → Finishes (λ j. i == j) s (finish i f now s)
finish-Finishes i f now s = record {
  states = λ j. ground arith;
  revisions = λ j. ground arith;
  ids = λ j. ground arith;
  pending = refl;
  taken = refl;
  stopping = refl;
  scheduled = refl;
  desired_revision = refl;
  applied_revision = refl;
}

finish_all-Finishes :
    (l : List ℕ) (f : Failure) (now : ℕ) (s : Control)
    → Finishes (λ j. contains j l) s (finish_all l f now s)
unfolding finish_all contains
finish_all-Finishes [] f now s = record {
  states = λ j. refl;
  revisions = λ j. refl;
  ids = λ j. refl;
  pending = refl;
  taken = refl;
  stopping = refl;
  scheduled = refl;
  desired_revision = refl;
  applied_revision = refl;
}
finish_all-Finishes (i ∷ rest) f now s =
    let t = finish i (some f) now s in
    let g = finish-Finishes i (some f) now s in
    let h = finish_all-Finishes rest f now t in
    record {
      states = λ j. ground (arith, g.states j, h.states j);
      revisions = λ j. h.revisions j ∙ g.revisions j;
      ids = λ j. h.ids j ∙ g.ids j;
      pending = h.pending;
      taken = h.taken;
      stopping = h.stopping;
      scheduled = h.scheduled;
      desired_revision = h.desired_revision;
      applied_revision = h.applied_revision;
    }

post_failed-ControlValid :
    (now : ℕ) (s : Control) → ControlValid s → ControlValid (post_failed now s)
unfolding post_failed contains
post_failed-ControlValid now s v =
    let g = finish_all-Finishes s.pending internal now s in
    record {
      under_way = λ j a. ground (arith, g.states j, v.under_way j, g.taken);
      waiting = λ j e. cc;
      in_hand = λ j e t. ground (arith, v.in_hand j, g.states j, g.taken, g.stopping);
      distinct = tt;
      capacity = omega arith;
      posted = λ e. cc;
      current = ground (arith, v.current, g.desired_revision, g.applied_revision);
      known = λ j. ground (arith, v.known j, g.revisions j, g.desired_revision);
      named = λ j a. ground (arith, v.named j, g.states j, g.ids j);
      inside = λ j a. ground (arith, v.inside j, g.states j);
      quiet = λ e. (refl, λ j a. ground (arith, (v.quiet (sym g.stopping ∙ e)).1 j, g.states j));
    }

take_next-ControlValid :
    (p : List ℕ) (s : Control)
    → s.pending ≡ p
    → s.taken ≡ none
    → s.stopping ≡ false
    → ControlValid s
    → ControlValid (take_next p s)
unfolding contains
take_next-ControlValid [] s e t h v = record {
  under_way = v.under_way;
  waiting = v.waiting;
  in_hand = v.in_hand;
  distinct = v.distinct;
  capacity = v.capacity;
  posted = λ g. ground (arith, e);
  current = v.current;
  known = v.known;
  named = v.named;
  inside = v.inside;
  quiet = v.quiet;
}
take_next-ControlValid (i ∷ rest) s e t h v =
    let d = subst Distinct e v.distinct in
    let c = subst (λ l. length l ≤ 16) e v.capacity in
    let w = λ (j : ℕ). subst (λ l. contains j l ≡ true → IsAccepted j s) e (v.waiting j) in
    let u = λ (j : ℕ) (a : IsAccepted j s).
      subst (λ l. (contains j l ≡ true) ⊎ (s.taken ≡ some j)) e (v.under_way j a) in
    record {
      under_way = λ j a. ground (arith, u j a);
      waiting = λ j g. ground (arith, w j);
      in_hand = λ j g k. ground (arith, w j, d.0);
      distinct = d.1;
      capacity = omega (arith, c);
      posted = λ g. v.posted (ground (arith, e));
      current = v.current;
      known = v.known;
      named = v.named;
      inside = v.inside;
      quiet = λ g. ground arith;
    }

idle-ControlValid :
    (s : Control) → s.stopping ≡ true → ControlValid s → ControlValid (apply_returns s)
idle-ControlValid s h v = record {
  under_way = v.under_way;
  waiting = v.waiting;
  in_hand = v.in_hand;
  distinct = v.distinct;
  capacity = v.capacity;
  posted = λ g. ground (arith, (v.quiet h).0);
  current = v.current;
  known = v.known;
  named = v.named;
  inside = v.inside;
  quiet = v.quiet;
}

pub apply_next-ControlValid : (s : Control) → ControlValid s → ControlValid (apply_next s)
unfolding apply_next
apply_next-ControlValid s v =
    option_rule ControlValid s.taken
      (λ t.
        if_rule ControlValid s.stopping (λ h. idle-ControlValid s h v)
          (λ h. take_next-ControlValid s.pending s refl t h v))
      (λ i t. v)

abandoned-ControlValid :
    (s : Control)
    → s.stopping ≡ true
    → ControlValid s
    → ControlValid (record s { applying = false; taken = none })
abandoned-ControlValid s h v = record {
  under_way = λ j a. absurd ((v.quiet h).1 j a);
  waiting = v.waiting;
  in_hand = λ j e t. cc;
  distinct = v.distinct;
  capacity = v.capacity;
  posted = v.posted;
  current = v.current;
  known = v.known;
  named = v.named;
  inside = v.inside;
  quiet = v.quiet;
}

settled-ControlValid :
    (i : ℕ) (f : Option Failure) (later : ℕ) (s : Control)
    → s.taken ≡ some i
    → s.stopping ≡ false
    → ControlValid s
    → ControlValid (record (finish i f later (applied_with (s.operations i) f s)) {
      applying = false;
      taken = none;
    })
settled-ControlValid i f later s t h v =
    let w = v.in_hand i h t in
    record {
      under_way = λ j a. ground (arith, v.under_way j);
      waiting = λ j e. ground (arith, v.waiting j, w.1);
      in_hand = λ j e g. cc;
      distinct = ground (arith, v.distinct);
      capacity = ground (arith, v.capacity);
      posted = ground (arith, v.posted);
      current = ground (arith, v.current, v.known i);
      known = λ j. ground (arith, v.known j);
      named = λ j a. ground (arith, v.named j);
      inside = λ j a. ground (arith, v.inside j);
      quiet = λ e. ground arith;
    }

pub apply_done-ControlValid :
    (now later : ℕ) (returns : Bool) (s : Control)
    → ControlValid s
    → ControlValid (apply_done now later returns s)
unfolding apply_done
apply_done-ControlValid now later returns s v =
    option_rule ControlValid s.taken (λ t. v)
      λ i t.
        if_rule (λ u. ControlValid (record u { applying = false; taken = none })) s.stopping
          (λ h. abandoned-ControlValid s h v)
          (λ h.
            settled-ControlValid i (apply_failure now (s.operations i).deadline returns) later s t h
              v)

expire_ready-ControlValid :
    (x : World) (s : Control) → ControlValid s → ControlValid (expire_ready x s)
unfolding expire_ready
expire_ready-ControlValid x s v = SameCore-ControlValid v (record {
  states = λ j. ground arith;
  revisions = λ j. ground arith;
  ids = λ j. ground arith;
  pending = ground arith;
  taken = ground arith;
  stopping = ground arith;
  scheduled = ground arith;
  desired_revision = ground arith;
  applied_revision = ground arith;
})

stop_operations-Finishes :
    (left i now : ℕ) (s : Control)
    → Finishes (λ j. leb i j && ltb j (i + left)) s (stop_operations left i now s)
unfolding stop_operations
stop_operations-Finishes zero i now s = record {
  states = λ j. ground arith;
  revisions = λ j. refl;
  ids = λ j. refl;
  pending = refl;
  taken = refl;
  stopping = refl;
  scheduled = refl;
  desired_revision = refl;
  applied_revision = refl;
}
stop_operations-Finishes (suc left) i now s =
    let t = finish_accepted i now s in
    let h = stop_operations-Finishes left (i + 1) now t in
    record {
      states = λ j. ground (arith, h.states j);
      revisions = λ j. ground (arith, h.revisions j);
      ids = λ j. ground (arith, h.ids j);
      pending = ground (arith, h.pending);
      taken = ground (arith, h.taken);
      stopping = ground (arith, h.stopping);
      scheduled = ground (arith, h.scheduled);
      desired_revision = ground (arith, h.desired_revision);
      applied_revision = ground (arith, h.applied_revision);
    }

stopped-ControlValid :
    (now : ℕ) (s : Control)
    → ControlValid s
    → let t = stop_operations 128 0 now (record s { stopping = true }) in
      (replies : List (ℕ × Response))
      → ControlValid (record t { pending = []; ready_waiters = []; replies = replies })
unfolding contains
stopped-ControlValid now s v replies =
    let g = stop_operations-Finishes 128 0 now (record s { stopping = true }) in
    record {
      under_way = λ j a. ground (arith, v.inside j, g.states j);
      waiting = λ j e. cc;
      in_hand = λ j e t. ground (arith, g.stopping);
      distinct = tt;
      capacity = omega arith;
      posted = λ e. cc;
      current = ground (arith, v.current, g.desired_revision, g.applied_revision);
      known = λ j. ground (arith, v.known j, g.revisions j, g.desired_revision);
      named = λ j a. ground (arith, v.inside j, g.states j);
      inside = λ j a. ground (arith, v.inside j, g.states j);
      quiet = λ e. (refl, λ j a. ground (arith, v.inside j, g.states j));
    }

stop-ControlValid : (now : ℕ) (s : Control) → ControlValid s → ControlValid (stop now s)
unfolding stop
stop-ControlValid now s v =
    if_rule ControlValid s.stopping (λ h. v) (λ h. stopped-ControlValid now s v _)

-- A request has an id, which the HTTP library gives it.
abbrev pub HasId : Section → Type 0
HasId (handles x q reply) = is_empty q.request_id ≡ false
HasId _ = Unit

posted-ControlValid : (r : Control × Bool) → ControlValid r.0 → ControlValid (posted r)
posted-ControlValid (s, false) v = v
posted-ControlValid (s, true) v = SameCore-ControlValid v (record {
  states = λ j. refl;
  revisions = λ j. refl;
  ids = λ j. refl;
  pending = refl;
  taken = refl;
  stopping = refl;
  scheduled = refl;
  desired_revision = refl;
  applied_revision = refl;
})

section-ControlValid :
    (c : Section) (s : Control) → HasId c → ControlValid s → ControlValid (section c s)
unfolding section
section-ControlValid (handles x q reply) s n v =
    posted-ControlValid (handle x q reply s) (handle-ControlValid x q reply s n v)
section-ControlValid (fails_post now) s n v = post_failed-ControlValid now s v
section-ControlValid takes s n v =
    if_rule ControlValid s.callback (λ h. apply_next-ControlValid s v) (λ h. v)
section-ControlValid (applies now later returns) s n v =
    apply_done-ControlValid now later returns s v
section-ControlValid (expires x) s n v = expire_ready-ControlValid x s v
section-ControlValid (sets_ready ready) s n v = SameCore-ControlValid v (record {
  states = λ j. refl;
  revisions = λ j. refl;
  ids = λ j. refl;
  pending = refl;
  taken = refl;
  stopping = refl;
  scheduled = refl;
  desired_revision = refl;
  applied_revision = refl;
})
section-ControlValid (stops now) s n v = stop-ControlValid now s v

pub run_sections-ControlValid :
    (cs : List Section) (s : Control)
    → All HasId cs
    → ControlValid s
    → ControlValid (run_sections cs s)
unfolding run_sections
run_sections-ControlValid [] s n v = v
run_sections-ControlValid (c ∷ cs) s n v =
    run_sections-ControlValid cs (section c s) n.1 (section-ControlValid c s n.0 v)

pub initial_control-ControlValid : (enabled : Bool) → ControlValid (initial_control enabled)
unfolding contains
initial_control-ControlValid enabled = record {
  under_way = λ j a. cc;
  waiting = λ j e. cc;
  in_hand = λ j e t. cc;
  distinct = tt;
  capacity = omega arith;
  posted = λ e. cc;
  current = omega arith;
  known = λ j. omega arith;
  named = λ j a. cc;
  inside = λ j a. cc;
  quiet = λ e. cc;
}
