-- ===== src/ServiceCall/Boundary.antt =====
-- What a failed service call tells about the service
-- (src/ros1_tools_adapter/src/service_invoker.cpp, service_helper_main.cpp).
use xgc2_ros1_adapter.Common.{
  ◌↔◌, ◌⊎◌, ℕ, zero, suc, ◌+◌, ◌-◌, ◌≤◌, ◌<◌, ◌≡◌, ◌≢◌, refl, ap, subst, inl, inr, Bool, true,
  false, List, [], ◌∷◌, some, arith, Bool-cases,
}
use xgc2_ros1_adapter.Common.Int.{ℤ}
use xgc2_ros1_adapter.PublisherRegistry.State.{ToolsError}
use xgc2_ros1_adapter.ServiceCall.Protocol.{frame_size, is_ready, validate_request, validate_commit}
use xgc2_ros1_adapter.ServiceCall.Sockets.{
  PreCommitRound, PreCommitIo, runtime_deadline, write_pre_commit, moved, Transfer,
}
use xgc2_ros1_adapter.ServiceCall.Invoker.{
  Invoker, Request, Answers, Step, done, threw, waits, ◌>>◌, Ending, prepare, pre_commit,
  post_commit, call_helper, not_started, caught, acquire_in_flight, if_prepared, next_request_id,
  commit_between, call_permitted, call, require_pre_dispatch_allowed, serialize_service_request,
}
use xgc2_ros1_adapter.ServiceCall.Helper
use xgc2_ros1_adapter.ServiceCall.Helper.{Round, read_exact, run_helper, run_ready, read_request}

abbrev amount : Transfer → ℕ
amount (moved k) = k
amount _ = 0

-- A loop that completes has moved all bytes, and one that does not has moved fewer.
write_pre_commit_moved :
    (unix : ℤ) (until : ℕ) (rounds : List PreCommitRound) (size sent : ℕ)
    → let (r, n) = write_pre_commit unix until rounds size sent in
      (r ≡ PreCommitIo.complete → sent + size ≤ n) × (r ≢ PreCommitIo.complete → n < sent + size)
unfolding write_pre_commit
write_pre_commit_moved unix until rounds zero sent = (λ e. omega arith, λ e. absurd (e refl))
write_pre_commit_moved unix until [] (suc n) sent = (λ e. cc, λ e. omega arith)
write_pre_commit_moved unix until (a ∷ rest) (suc n) sent =
    let k = amount a.transfer in
    let again = write_pre_commit_moved unix until rest (suc n) sent in
    let next = write_pre_commit_moved unix until rest (suc n - k) (sent + k) in
    (ground (arith, again.0, next.0), ground (arith, again.1, next.1))

read_exact_whole :
    (rounds : List Round) (size received : ℕ)
    → (read_exact rounds size received).0 ≡ true
    → received + size ≤ (read_exact rounds size received).1
unfolding read_exact
read_exact_whole rounds zero received h = omega arith
read_exact_whole [] (suc n) received h = cc
read_exact_whole (a ∷ rest) (suc n) received h =
    let k = amount a.transfer in
    ground (
      arith,
      read_exact_whole rest (suc n) received,
      read_exact_whole rest (suc n - k) (received + k),
    )

-- How much of the commit frame was sent, by how the call ended.
abbrev pub Boundary : {R : Type 0} → ℕ → Step R → Type 0
Boundary n (done r) = frame_size ≤ n
Boundary n (threw e) =
    (e ≡ ToolsError.uncertain → frame_size ≤ n) × (e ≢ ToolsError.uncertain → n < frame_size)
Boundary n waits = Unit

caught_uncertain :
    {R : Type 0} {e : ToolsError} (m : Step R) → caught m ≡ threw e → e ≡ ToolsError.uncertain
caught_uncertain (done a) h = cc
caught_uncertain (threw e) h = cc
caught_uncertain waits h = cc

fewer :
    {e : ToolsError} {n : ℕ}
    → e ≢ ToolsError.uncertain
    → n < frame_size
    → (e ≡ ToolsError.uncertain → frame_size ≤ n) × (e ≢ ToolsError.uncertain → n < frame_size)
fewer h l = (λ u. absurd (h u), λ u. l)

-- The commit frame is sent between a step that throws nothing uncertain and one that throws nothing
-- else.
committed-Boundary :
    {R : Type 0} (before : Step (Unit {0})) (sent : PreCommitIo) (n : ℕ) (after : Step R)
    → before ≢ threw ToolsError.uncertain
    → (sent ≡ PreCommitIo.complete → frame_size ≤ n)
    → (sent ≢ PreCommitIo.complete → n < frame_size)
    → ((e : ToolsError) → after ≡ threw e → e ≡ ToolsError.uncertain)
    → let e = commit_between before sent n after in Boundary e.commit_bytes e.outcome
committed-Boundary (threw e) sent n after b c d u = fewer (λ h. b (ap threw h)) (omega arith)
committed-Boundary waits sent n after b c d u = tt
committed-Boundary (done t) PreCommitIo.complete n (done r) b c d u = c refl
committed-Boundary (done t) PreCommitIo.complete n (threw e) b c d u =
    (λ h. c refl, λ h. absurd (h (u e refl)))
committed-Boundary (done t) PreCommitIo.complete n waits b c d u = tt
committed-Boundary (done t) PreCommitIo.cancelled n after b c d u = fewer (λ e. cc) (d (λ e. cc))
committed-Boundary (done t) PreCommitIo.deadline n after b c d u = fewer (λ e. cc) (d (λ e. cc))
committed-Boundary (done t) PreCommitIo.transport_error n after b c d u =
    fewer (λ e. cc) (d (λ e. cc))
committed-Boundary (done t) PreCommitIo.unfinished n after b c d u = tt

unsent-Boundary :
    (R : Type 0) (m : Step (Unit {0}))
    → m ≢ threw ToolsError.uncertain
    → Boundary {R = R} 0 (m >> threw ToolsError.transient)
unsent-Boundary R (done u) h = fewer (λ e. cc) (omega arith)
unsent-Boundary R (threw e) h = fewer (λ u. h (ap threw u)) (omega arith)
unsent-Boundary R waits h = tt

module _ {R : Type 0} (q : Request) (x : Answers R) where
  prepare-ne-uncertain : prepare q x ≢ threw ToolsError.uncertain
  unfolding prepare require_pre_dispatch_allowed serialize_service_request
  prepare-ne-uncertain h = ground arith

  pre_commit-ne-uncertain : (until id : ℕ) → pre_commit q x until id ≢ threw ToolsError.uncertain
  unfolding pre_commit require_pre_dispatch_allowed
  pre_commit-ne-uncertain until id h = ground arith

  not_started-Boundary : Boundary 0 (not_started q x)
  unfolding not_started require_pre_dispatch_allowed
  not_started-Boundary =
      unsent-Boundary R (require_pre_dispatch_allowed q.deadline_unix_nanos x.not_started)
        (λ h. ground arith)

  post_commit-uncertain :
      (until id : ℕ) {e : ToolsError}
      → post_commit q x until id ≡ threw e
      → e ≡ ToolsError.uncertain
  unfolding post_commit
  post_commit-uncertain until id h = caught_uncertain _ h

  call_helper-Boundary :
      (id : ℕ) → Boundary (call_helper q x id).commit_bytes (call_helper q x id).outcome
  unfolding call_helper
  call_helper-Boundary id =
      let until = runtime_deadline q.deadline_unix_nanos x.started_at in
      let m = write_pre_commit_moved q.deadline_unix_nanos until x.commit_rounds frame_size 0 in
      committed-Boundary (pre_commit q x until id) _ _ (post_commit q x until id)
        (pre_commit-ne-uncertain until id) m.0 m.1 (λ e. post_commit-uncertain until id)

  call_permitted-Boundary :
      (meanwhile : Invoker → Invoker) (s : Invoker)
      → let e = (call_permitted q x meanwhile s).1 in Boundary e.commit_bytes e.outcome
  unfolding call_permitted
  call_permitted-Boundary meanwhile s = elim (Bool-cases x.started) [
    | inl h ↦ rw h (call_helper-Boundary (next_request_id s).1)
    | inr h ↦ rw h not_started-Boundary
  ]

  if_prepared-Boundary :
      (before : Step (Unit {0})) (permitted : Bool) (s : Invoker) (r : Invoker × Ending R)
      → before ≢ threw ToolsError.uncertain
      → Boundary r.1.commit_bytes r.1.outcome
      → let e = (if_prepared before permitted s r).1 in Boundary e.commit_bytes e.outcome
  if_prepared-Boundary (threw e) permitted s r b h = fewer (λ u. b (ap threw u)) (omega arith)
  if_prepared-Boundary waits permitted s r b h = tt
  if_prepared-Boundary (done u) true s r b h = h
  if_prepared-Boundary (done u) false s r b h = fewer (λ e. cc) (omega arith)

  -- A call that returns has sent the whole commit frame; one that throws has sent all of it if its
  -- error is uncertain, and not all of it for any other error: whatever the caller, the clocks, the
  -- socket, the helper and other calls do.
  pub call-Boundary :
      (meanwhile : Invoker → Invoker) (s : Invoker)
      → let e = (call q x meanwhile s).1 in Boundary e.commit_bytes e.outcome
  unfolding call
  call-Boundary meanwhile s =
      if_prepared-Boundary (prepare q x) _ s _ prepare-ne-uncertain
        (call_permitted-Boundary meanwhile (acquire_in_flight s).0)

-- A helper that calls the service has read a whole commit frame of its request, after a valid request
-- to which it said that it was ready.
run_helper-called :
    (x : Helper.Answers)
    → (run_helper x).called ≡ true
    → (frame_size ≤ (run_helper x).commit_bytes)
      × (validate_commit x.commit x.frame.request_id ≡ true)
      × (validate_request x.frame ≡ true)
      × ((run_helper x).ready ≡ some is_ready)
unfolding run_helper run_ready read_request
run_helper-called x h =
    let w = read_exact_whole x.commit_rounds frame_size 0 in
    (ground (arith, w), ground arith, ground arith, ground arith)

is_uncertain : (t : ToolsError) → (t ≡ ToolsError.uncertain) ⊎ (t ≢ ToolsError.uncertain)
is_uncertain ToolsError.uncertain = inl refl
is_uncertain ToolsError.cancelled = inr (λ e. cc)
is_uncertain ToolsError.deadline = inr (λ e. cc)
is_uncertain ToolsError.transient = inr (λ e. cc)
is_uncertain ToolsError.permanent = inr (λ e. cc)
is_uncertain ToolsError.rejected = inr (λ e. cc)
is_uncertain ToolsError.resource_exhausted = inr (λ e. cc)

-- What the error of a service call tells: it is uncertain exactly when the whole commit frame was sent,
-- whatever the caller, the clocks, the socket, the helper and other calls do.
pub call_uncertain :
    {R : Type 0} (q : Request) (x : Answers R) (meanwhile : Invoker → Invoker) (s : Invoker)
    (t : ToolsError)
    → let e = (call q x meanwhile s).1 in
      e.outcome ≡ threw t → (t ≡ ToolsError.uncertain) ↔ (frame_size ≤ e.commit_bytes)
call_uncertain q x meanwhile s t o =
    let e = (call q x meanwhile s).1 in
    let b = subst (Boundary e.commit_bytes) o (call-Boundary q x meanwhile s) in
    (b.0, λ l. elim (is_uncertain t) [ inl u ↦ u | inr n ↦ absurd (omega (arith, b.1 n)) ])

-- A service call that fails with an error other than uncertain was never made: if a socket gives its
-- reader no more bytes than were sent, the helper process did not call the service.
pub failed_call-uncalled :
    {R : Type 0} (q : Request) (x : Answers R) (meanwhile : Invoker → Invoker) (s : Invoker)
    (h : Helper.Answers) (t : ToolsError)
    → let e = (call q x meanwhile s).1 in
      (run_helper h).commit_bytes ≤ e.commit_bytes
      → e.outcome ≡ threw t
      → t ≢ ToolsError.uncertain
      → (run_helper h).called ≡ false
failed_call-uncalled q x meanwhile s h t l o n = elim (Bool-cases (run_helper h).called) [
  | inl y ↦
      absurd
        (n ((call_uncertain q x meanwhile s t o).1 (omega (arith, l, (run_helper-called h y).0))))
  | inr y ↦ y
]
