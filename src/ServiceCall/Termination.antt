-- ===== src/ServiceCall/Termination.antt =====
-- The waiting of a service call ends (src/ros1_tools_adapter/src/service_invoker.cpp): the rounds that
-- the model is given are enough as soon as one of them is past the deadline or cancelled.
use xgc2_ros1_adapter.Common.{
  ℕ, zero, suc, ◌+◌, ◌-◌, ◌*◌, max, ◌≤◌, ◌≡◌, ◌≢◌, Bool, true, false, List, [], ◌∷◌, ◌||◌, All,
  length, arith,
}
use xgc2_ros1_adapter.Common.Int.{ℤ}
use xgc2_ros1_adapter.ServiceCall.Protocol.{frame_size}
use xgc2_ros1_adapter.ServiceCall.Sockets.{
  Reading, Waiting, PreCommitRound, PreCommitIo, PostCommitRound, PostCommitIo, Transfer, moved,
  expired, wait_pre_commit_event, write_pre_commit, read_post_commit, runtime_deadline,
  poll_timeout, steady_max,
}
use xgc2_ros1_adapter.ServiceCall.Invoker.{
  Answers, Request, Invoker, Step, done, threw, waits, prepare, pre_commit, post_commit,
  call_helper, not_started, call_permitted, call, caught, commit_between,
  require_pre_dispatch_allowed, serialize_service_request, next_request_id, acquire_in_flight,
}

abbrev amount : Transfer → ℕ
amount (moved k) = k
amount _ = 0

-- No poll waits for more than 5 ms, so the caller's cancellation is looked at that often; and none
-- waits for more than 1 ms past the deadline.
pub poll_timeout_bounds :
    (deadline now : ℕ)
    → (poll_timeout deadline now ≤ 5)
      × (deadline ≢ steady_max
          → now + poll_timeout deadline now * 1000000 ≤ max deadline now + 1000000)
unfolding poll_timeout
poll_timeout_bounds deadline now = (ground arith, ground arith)

module _ (unix : ℤ) (until : ℕ) where
  -- The caller is gone, or a deadline is past.
  abbrev pub late : Reading → Bool
  late r = r.cancellation_requested || expired unix until r

  abbrev pub some_wait_late : List Waiting → Bool
  some_wait_late [] = false
  some_wait_late (w ∷ ws) = late w.before || some_wait_late ws

  abbrev pub some_round_late : List PreCommitRound → Bool
  some_round_late [] = false
  some_round_late (a ∷ rest) = late a.before || some_round_late rest

  abbrev pub some_answer_late : List PostCommitRound → Bool
  some_answer_late [] = false
  some_answer_late (a ∷ rest) = late a.before || some_answer_late rest

  -- The answers go on until the deadline, in the loop and in each of its waits.
  abbrev pub GoOn : List PreCommitRound → Type 0
  GoOn rounds = (some_round_late rounds ≡ true) × All (λ a. some_wait_late a.waits ≡ true) rounds

  wait_pre_commit_event_ends :
      (ws : List Waiting)
      → some_wait_late ws ≡ true
      → wait_pre_commit_event unix until ws ≢ PreCommitIo.unfinished
  unfolding wait_pre_commit_event
  wait_pre_commit_event_ends [] h = λ e. cc
  wait_pre_commit_event_ends (w ∷ ws) h = ground (arith, wait_pre_commit_event_ends ws)

  write_pre_commit_ends :
      (rounds : List PreCommitRound) (size sent : ℕ)
      → some_round_late rounds ≡ true
      → All (λ a. some_wait_late a.waits ≡ true) rounds
      → (write_pre_commit unix until rounds size sent).0 ≢ PreCommitIo.unfinished
  unfolding write_pre_commit
  write_pre_commit_ends rounds zero sent h w = λ e. cc
  write_pre_commit_ends [] (suc n) sent h w = λ e. cc
  write_pre_commit_ends (a ∷ rest) (suc n) sent h w =
      let k = amount a.transfer in
      ground (
        arith,
        wait_pre_commit_event_ends a.waits w.0,
        λ (g : some_round_late rest ≡ true). write_pre_commit_ends rest (suc n) sent g w.1,
        λ (g : some_round_late rest ≡ true).
            write_pre_commit_ends rest (suc n - k) (sent + k) g w.1,
      )

  read_post_commit_ends :
      (call_deadline : ℕ) (rounds : List PostCommitRound) (last : Reading) (size : ℕ)
      → some_answer_late rounds ≡ true
      → read_post_commit unix until call_deadline rounds last size ≢ PostCommitIo.unfinished
  unfolding read_post_commit
  read_post_commit_ends c rounds last zero h = ground arith
  read_post_commit_ends c [] last (suc n) h = λ e. cc
  read_post_commit_ends c (a ∷ rest) last (suc n) h =
      let k = amount a.transfer in
      ground (
        arith,
        read_post_commit_ends c rest last (suc n),
        read_post_commit_ends c rest last (suc n - k),
      )

module _ {R : Type 0} (q : Request) (x : Answers R) where
  abbrev until : ℕ
  until = runtime_deadline q.deadline_unix_nanos x.started_at

  -- The answers of every loop of the call go on until the deadline.
  pub record GoesOn : Type 0 where
    pub frame_answers : GoOn q.deadline_unix_nanos until x.frame_rounds
    pub service_answers : GoOn q.deadline_unix_nanos until x.service_rounds
    pub md5_answers : GoOn q.deadline_unix_nanos until x.md5_rounds
    pub payload_answers : GoOn q.deadline_unix_nanos until x.payload_rounds
    pub ready_answers : GoOn q.deadline_unix_nanos until x.ready_rounds
    pub commit_answers : GoOn q.deadline_unix_nanos until x.commit_rounds
    pub response_answers : some_answer_late q.deadline_unix_nanos until x.response_rounds ≡ true
    pub content_answers : some_answer_late q.deadline_unix_nanos until x.content_rounds ≡ true

  abbrev Ends : List PreCommitRound → ℕ → Type 0
  Ends rounds size =
      (write_pre_commit q.deadline_unix_nanos until rounds size 0).0 ≢ PreCommitIo.unfinished

  ends :
      (rounds : List PreCommitRound) (size : ℕ)
      → GoOn q.deadline_unix_nanos until rounds
      → Ends rounds size
  ends rounds size g = write_pre_commit_ends q.deadline_unix_nanos until rounds size 0 g.0 g.1

  prepare_ends : prepare q x ≢ waits
  unfolding prepare require_pre_dispatch_allowed serialize_service_request
  prepare_ends h = ground arith

  not_started_ends : not_started q x ≢ waits
  unfolding not_started require_pre_dispatch_allowed
  not_started_ends h = ground arith

  pre_commit_ends : (id : ℕ) → GoesOn → pre_commit q x until id ≢ waits
  unfolding pre_commit require_pre_dispatch_allowed
  pre_commit_ends id g h = ground (
    arith,
    ends x.frame_rounds frame_size g.frame_answers,
    ends x.service_rounds (length q.service) g.service_answers,
    ends x.md5_rounds (length x.md5) g.md5_answers,
    ends x.payload_rounds x.payload_size g.payload_answers,
    ends x.ready_rounds frame_size g.ready_answers,
  )

  caught_ends : (m : Step R) → m ≢ waits → caught m ≢ waits
  caught_ends (done r) h = λ e. cc
  caught_ends (threw t) h = λ e. cc
  caught_ends waits h = h

  post_commit_ends : (id : ℕ) → GoesOn → post_commit q x until id ≢ waits
  unfolding post_commit
  post_commit_ends id g =
      let c = x.committed_at + q.call_timeout_ms * 1000000 in
      caught_ends _ (λ h. ground (
        arith,
        read_post_commit_ends q.deadline_unix_nanos until c x.response_rounds x.response_last
            frame_size g.response_answers,
        read_post_commit_ends q.deadline_unix_nanos until c x.content_rounds x.content_last
            x.response.payload_bytes g.content_answers,
      ))

  commit_between_ends :
      (before : Step (Unit {0})) (sent : PreCommitIo) (n : ℕ) (after : Step R)
      → before ≢ waits
      → sent ≢ PreCommitIo.unfinished
      → after ≢ waits
      → (commit_between before sent n after).outcome ≢ waits
  commit_between_ends before sent n after a b c h = ground arith

  call_helper_ends : (id : ℕ) → GoesOn → (call_helper q x id).outcome ≢ waits
  unfolding call_helper
  call_helper_ends id g =
      commit_between_ends (pre_commit q x until id) _ _ (post_commit q x until id)
        (pre_commit_ends id g) (ends x.commit_rounds frame_size g.commit_answers)
        (post_commit_ends id g)

  -- A service call ends: with answers that go on until its deadline is past or its caller is gone, it
  -- returns or throws and does not wait.
  pub call_ends :
      (meanwhile : Invoker → Invoker) (s : Invoker)
      → GoesOn
      → (call q x meanwhile s).1.outcome ≢ waits
  unfolding call call_permitted
  call_ends meanwhile s g h = ground (
    arith,
    prepare_ends,
    not_started_ends,
    call_helper_ends (next_request_id (acquire_in_flight s).0).1 g,
  )
