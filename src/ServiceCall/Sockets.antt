-- ===== src/ServiceCall/Sockets.antt =====
-- The loops of src/ros1_tools_adapter/src/service_invoker.cpp over the helper's socket. What the
-- clocks, the caller and the system calls answer are lists of rounds; a loop that has used up its
-- rounds is unfinished. Times of the steady clock are nanoseconds.
use xgc2_ros1_adapter.Common.{
  ℕ, zero, suc, ◌+◌, ◌-◌, ◌/◌, ◌^◌, min, max, Bool, false, List, [], ◌∷◌, ◌||◌, leb, ◌==◌,
  if◌then◌else◌,
}
use xgc2_ros1_adapter.Common.Int.{ℤ, pos, pos_part, neg_part, leb_ℤ}

-- One look at the caller's cancellation and at both clocks.
pub record Reading : Type 0 where
  pub cancellation_requested : Bool
  pub system_now : ℤ
  pub steady_now : ℕ

-- `time_point::max()`.
abbrev pub steady_max : ℕ
steady_max = 2 ^ 63 - 1

unfoldable pub deadline_expired : (deadline_unix_nanos : ℤ) → Reading → Bool
deadline_expired d r = if leb_ℤ d (pos 0) then false else leb_ℤ d r.system_now

unfoldable pub runtime_deadline : (deadline_unix_nanos : ℤ) → Reading → ℕ
runtime_deadline d r =
    if leb_ℤ d (pos 0)
    then steady_max
    else (if leb_ℤ d r.system_now
        then r.steady_now
        else (let remaining =
              pos_part d + neg_part r.system_now - (neg_part d + pos_part r.system_now) in
            if leb (steady_max - r.steady_now) remaining
            then steady_max
            else r.steady_now + remaining))

-- In milliseconds.
unfoldable pub poll_timeout : (deadline : ℕ) → (steady_now : ℕ) → ℕ
poll_timeout deadline now =
    if deadline == steady_max
    then 5
    else (if leb deadline now then 0 else max 1 (min 5 ((deadline - now) / 1000000 + 1)))

-- What `send` or `recv` returns: a number of bytes, 0 for a closed socket, or an error.
pub data Transfer : Type 0 where
  moved : ℕ → Transfer
  interrupted would_block failed : Transfer

-- What `poll` returns: the wanted event, an error event without it, another event, or no event.
pub data Polled : Type 0 where
  wanted disconnected other timed_out interrupted failed : Polled

pub record Waiting : Type 0 where
  pub before : Reading
  pub polled : Polled

pub record PreCommitRound : Type 0 where
  pub before : Reading
  pub transfer : Transfer
  pub waits : List Waiting

pub data PreCommitIo : Type 0 where
  complete cancelled deadline transport_error unfinished : PreCommitIo

pub record PostCommitRound : Type 0 where
  pub before : Reading
  pub transfer : Transfer
  pub polled : Polled

pub data PostCommitIo : Type 0 where
  complete cancelled deadline call_timeout transport_error unfinished : PostCommitIo

-- `unix` is the caller's deadline on the system clock, `until` the one on the steady clock.
module _ (unix : ℤ) (until : ℕ) where
  abbrev pub expired : Reading → Bool
  expired r = deadline_expired unix r || leb until r.steady_now

  unfoldable pub wait_pre_commit_event : List Waiting → PreCommitIo
  unfolding deadline_expired
  wait_pre_commit_event [] = PreCommitIo.unfinished
  wait_pre_commit_event (w ∷ ws) =
      let rest = wait_pre_commit_event ws in
      if w.before.cancellation_requested
      then PreCommitIo.cancelled
      else (if expired w.before then PreCommitIo.deadline else elim w.polled [
        | Polled.interrupted ↦ rest
        | Polled.failed ↦ PreCommitIo.transport_error
        | timed_out ↦ rest
        | wanted ↦ PreCommitIo.complete
        | disconnected ↦ PreCommitIo.transport_error
        | other ↦ rest
      ])

  -- `size` bytes are left, `done` were moved; the result has the number that was moved.
  unfoldable pub write_pre_commit : List PreCommitRound → (size done : ℕ) → PreCommitIo × ℕ
  unfolding wait_pre_commit_event
  write_pre_commit rounds zero done = (PreCommitIo.complete, done)
  write_pre_commit [] (suc n) done = (PreCommitIo.unfinished, done)
  write_pre_commit (a ∷ rest) (suc n) done =
      let again = write_pre_commit rest (suc n) done in
      let next = λ (k : ℕ). write_pre_commit rest (suc n - k) (done + k) in
      if a.before.cancellation_requested
      then (PreCommitIo.cancelled, done)
      else (if expired a.before then (PreCommitIo.deadline, done) else elim a.transfer [
        | moved k ↦ (if k == 0 then (PreCommitIo.transport_error, done) else next k)
        | Transfer.interrupted ↦ again
        | Transfer.failed ↦ (PreCommitIo.transport_error, done)
        | would_block ↦ elim (wait_pre_commit_event a.waits) [
          | PreCommitIo.complete ↦ again
          | refused ↦ (refused, done)
        ]
      ])

  -- The same loop over `recv`.
  abbrev pub read_pre_commit : List PreCommitRound → (size done : ℕ) → PreCommitIo × ℕ
  read_pre_commit = write_pre_commit

  -- Why a loop after the commit stops at a reading.
  unfoldable pub post_commit_refusal : (call_deadline : ℕ) → Reading → PostCommitIo
  unfolding deadline_expired
  post_commit_refusal call_deadline r =
      if r.cancellation_requested
      then PostCommitIo.cancelled
      else (if expired r
          then PostCommitIo.deadline
          else (if leb call_deadline r.steady_now
              then PostCommitIo.call_timeout
              else PostCommitIo.complete))

  -- `last` is read when all bytes are there.
  unfoldable pub read_post_commit :
      (call_deadline : ℕ) → List PostCommitRound → (last : Reading) → (size : ℕ) → PostCommitIo
  unfolding post_commit_refusal
  read_post_commit call_deadline rounds last zero = post_commit_refusal call_deadline last
  read_post_commit call_deadline [] last (suc n) = PostCommitIo.unfinished
  read_post_commit call_deadline (a ∷ rest) last (suc n) =
      let again = read_post_commit call_deadline rest last (suc n) in
      let next = λ (k : ℕ). read_post_commit call_deadline rest last (suc n - k) in
      elim (post_commit_refusal call_deadline a.before) [
        | PostCommitIo.complete ↦ elim a.transfer [
          | moved k ↦ (if k == 0 then PostCommitIo.transport_error else next k)
          | Transfer.interrupted ↦ again
          | Transfer.failed ↦ PostCommitIo.transport_error
          | would_block ↦ elim a.polled [
            | Polled.failed ↦ PostCommitIo.transport_error
            | disconnected ↦ PostCommitIo.transport_error
            | carried_on ↦ again
          ]
        ]
        | refused ↦ refused
      ]
