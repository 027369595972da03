-- ===== src/ServiceCall/Invoker.antt =====
-- `ServiceInvoker` (src/ros1_tools_adapter/src/service_invoker.cpp). The type registry, the codec, the
-- helper process and the sockets answer by arguments; an exception before the commit that is not of
-- the tools counts as permanent. The response is of any type.
use xgc2_ros1_adapter.Common.{
  ℕ, ◌+◌, ◌-◌, ◌*◌, ◌%◌, ◌^◌, Bool, true, false, List, ◌&&◌, ◌||◌, not, leb, ◌==◌, if◌then◌else◌,
  Bytes, length, is_empty,
}
use xgc2_ros1_adapter.Common.Int.{ℤ}
use xgc2_ros1_adapter.PublisherRegistry.State.{ToolsError}
use xgc2_ros1_adapter.ServiceCall.Protocol.{
  Frame, make_request, validate_ready, validate_response, valid_service_md5,
  maximum_service_name_bytes, maximum_service_payload_bytes, frame_size, ready_code, response_code,
  is_ready, service_unavailable, completed, call_failed, response_too_large,
}
use xgc2_ros1_adapter.ServiceCall.Sockets.{
  Reading, deadline_expired, runtime_deadline, PreCommitRound, PreCommitIo, PostCommitRound,
  PostCommitIo, write_pre_commit, read_pre_commit, read_post_commit,
}

-- A call that goes on, that was thrown out of, or that still waits for an answer.
pub data Step {ℓ} (A : Type ℓ) : Type ℓ where
  done : A → Step A
  threw : ToolsError → Step A
  waits : Step A

infixl 5 ◌>>=◌ ◌>>◌
abbrev pub ◌>>=◌ {ℓ κ} : {A : Type ℓ} {B : Type κ} → Step A → (A → Step B) → Step B
done a >>= f = f a
threw e >>= f = threw e
waits >>= f = waits

abbrev pub ◌>>◌ {ℓ} : {B : Type ℓ} → Step (Unit {0}) → Step B → Step B
m >> k = m >>= λ _. k

abbrev pub require : Bool → ToolsError → Step (Unit {0})
require true e = done tt
require false e = threw e

-- `in_flight` counts the permits, `next` is the static counter of request ids.
pub record Invoker : Type 0 where
  pub maximum_in_flight : ℕ
  pub in_flight : ℕ
  pub next : ℕ

pub record Request : Type 0 where
  pub service : Bytes
  pub wait_for_service_ms : ℕ
  pub call_timeout_ms : ℕ
  pub deadline_unix_nanos : ℤ

-- The constructor.
unfoldable pub new_invoker : (maximum_in_flight : ℕ) → Step Invoker
new_invoker maximum_in_flight =
    if maximum_in_flight == 0
    then threw ToolsError.permanent
    else done (record { maximum_in_flight = maximum_in_flight; in_flight = 0; next = 1 })

-- The loop of compare_exchange acts at the exchange that succeeds, or at the load that sees the
-- maximum.
unfoldable pub acquire_in_flight : Invoker → Invoker × Bool
acquire_in_flight s =
    if leb s.maximum_in_flight s.in_flight
    then (s, false)
    else (record s { in_flight = s.in_flight + 1 }, true)

-- The destructor of a permit.
abbrev pub release_in_flight : Invoker → Invoker
release_in_flight s = record s { in_flight = s.in_flight - 1 }

-- The counter wraps, and 0 is taken and dropped.
unfoldable pub next_request_id : Invoker → Invoker × ℕ
next_request_id s =
    if s.next == 0
    then (record s { next = 2 }, 1)
    else (record s { next = (s.next + 1) % 2 ^ 64 }, s.next)

-- The answers during one call, in the order of the code.
pub record Answers (Response : Type 0) : Type 0 where
  pub first : Reading
  pub resolved : Bool
  pub has_response_template : Bool
  pub decoded : Bool
  pub payload_size : ℕ
  pub written : ℕ
  pub second : Reading
  pub has_description : Bool
  pub md5 : Bytes
  pub started : Bool
  pub not_started : Reading
  pub started_at : Reading
  pub frame_rounds : List PreCommitRound
  pub service_rounds : List PreCommitRound
  pub md5_rounds : List PreCommitRound
  pub payload_rounds : List PreCommitRound
  pub ready_rounds : List PreCommitRound
  pub ready : Frame
  pub third : Reading
  pub commit_rounds : List PreCommitRound
  pub committed_at : ℕ
  pub response_rounds : List PostCommitRound
  pub response_last : Reading
  pub response : Frame
  pub content_rounds : List PostCommitRound
  pub content_last : Reading
  pub message_made : Bool
  pub bytes_read : ℕ
  pub encoded : Bool
  pub value : Response

unfoldable pub require_pre_dispatch_allowed : (deadline_unix_nanos : ℤ) → Reading → Step (Unit {0})
unfolding deadline_expired
require_pre_dispatch_allowed d r =
    if r.cancellation_requested
    then threw ToolsError.cancelled
    else (if deadline_expired d r then threw ToolsError.deadline else done tt)

-- `failPreCommit`, where the loop did not complete.
abbrev pub fail_pre_commit : PreCommitIo → Step (Unit {0})
fail_pre_commit PreCommitIo.complete = done tt
fail_pre_commit PreCommitIo.cancelled = threw ToolsError.cancelled
fail_pre_commit PreCommitIo.deadline = threw ToolsError.deadline
fail_pre_commit PreCommitIo.transport_error = threw ToolsError.transient
fail_pre_commit PreCommitIo.unfinished = waits

-- `failPostCommit`, where the loop did not complete.
abbrev fail_post_commit : PostCommitIo → Step (Unit {0})
fail_post_commit PostCommitIo.complete = done tt
fail_post_commit PostCommitIo.cancelled = threw ToolsError.uncertain
fail_post_commit PostCommitIo.deadline = threw ToolsError.uncertain
fail_post_commit PostCommitIo.call_timeout = threw ToolsError.uncertain
fail_post_commit PostCommitIo.transport_error = threw ToolsError.uncertain
fail_post_commit PostCommitIo.unfinished = waits

-- The catch clauses after the commit.
abbrev pub caught {ℓ} : {A : Type ℓ} → Step A → Step A
caught (done a) = done a
caught (threw e) = threw ToolsError.uncertain
caught waits = waits

-- What was sent of the commit frame, and how the call ended.
pub record Ending (Response : Type 0) : Type 0 where
  pub commit_bytes : ℕ
  pub outcome : Step Response

abbrev pub ends : {Response : Type 0} → ℕ → Step Response → Ending Response
ends n o = record { commit_bytes = n; outcome = o }

-- `n` bytes of the commit frame are sent, if nothing was thrown before.
abbrev pub commit_between :
    {Response : Type 0} → Step (Unit {0}) → PreCommitIo → (n : ℕ) → Step Response → Ending Response
commit_between (threw e) sent n after = ends 0 (threw e)
commit_between waits sent n after = ends 0 waits
commit_between (done u) sent n after = ends n (fail_pre_commit sent >> after)

-- A call that nothing was thrown out of by then goes on with a permit, as `r`.
abbrev pub if_prepared :
    {Response : Type 0}
    → Step (Unit {0})
    → (permitted : Bool) → Invoker
    → (r : Invoker × Ending Response) → Invoker × Ending Response
if_prepared (threw e) permitted s r = (s, ends 0 (threw e))
if_prepared waits permitted s r = (s, ends 0 waits)
if_prepared (done u) true s r = r
if_prepared (done u) false s r = (s, ends 0 (threw ToolsError.resource_exhausted))

module _ {Response : Type 0} (q : Request) (x : Answers Response) where
  unfoldable pub serialize_service_request : Step (Unit {0})
  serialize_service_request = do
    require (leb x.payload_size maximum_service_payload_bytes) ToolsError.permanent
    require (x.payload_size == 0 || x.written == x.payload_size) ToolsError.permanent

  -- Up to the permit.
  unfoldable pub prepare : Step (Unit {0})
  unfolding require_pre_dispatch_allowed serialize_service_request
  prepare = do
    require_pre_dispatch_allowed q.deadline_unix_nanos x.first
    require x.resolved ToolsError.permanent
    require x.has_response_template ToolsError.permanent
    require x.decoded ToolsError.permanent
    serialize_service_request
    require_pre_dispatch_allowed q.deadline_unix_nanos x.second
    require (x.has_description && valid_service_md5 x.md5) ToolsError.permanent
    require (not (is_empty q.service) && leb (length q.service) maximum_service_name_bytes)
        ToolsError.permanent

  -- The frame that the helper reads first.
  abbrev pub request_frame : (id : ℕ) → Frame
  request_frame id =
      make_request id (length q.service) (length x.md5) x.payload_size q.wait_for_service_ms

  abbrev send_pre_commit : (until : ℕ) → List PreCommitRound → (size : ℕ) → Step (Unit {0})
  send_pre_commit until rounds size =
      fail_pre_commit (write_pre_commit q.deadline_unix_nanos until rounds size 0).0

  abbrev receive_ready : (until : ℕ) → Step (Unit {0})
  receive_ready until =
      fail_pre_commit (read_pre_commit q.deadline_unix_nanos until x.ready_rounds frame_size 0).0

  -- From the request frame to the last look before the commit.
  unfoldable pub pre_commit : (until id : ℕ) → Step (Unit {0})
  unfolding require_pre_dispatch_allowed
  pre_commit until id = do
    send_pre_commit until x.frame_rounds frame_size
    send_pre_commit until x.service_rounds (length q.service)
    send_pre_commit until x.md5_rounds (length x.md5)
    send_pre_commit until x.payload_rounds x.payload_size
    receive_ready until
    require (validate_ready x.ready id) ToolsError.transient
    require (not (x.ready.status == ready_code service_unavailable)) ToolsError.transient
    require (x.ready.status == ready_code is_ready) ToolsError.transient
    require_pre_dispatch_allowed q.deadline_unix_nanos x.third

  abbrev receive_response :
      (until : ℕ) → List PostCommitRound → Reading → (size : ℕ) → Step (Unit {0})
  receive_response until rounds last size =
      let call_deadline = x.committed_at + q.call_timeout_ms * 1000000 in
      fail_post_commit (read_post_commit q.deadline_unix_nanos until call_deadline rounds last size)

  -- A payload of no bytes is not read.
  abbrev receive_content : (until : ℕ) → Step (Unit {0})
  receive_content until =
      if x.response.payload_bytes == 0
      then done tt
      else receive_response until x.content_rounds x.content_last x.response.payload_bytes

  unfoldable pub post_commit : (until id : ℕ) → Step Response
  post_commit until id = caught do
    receive_response until x.response_rounds x.response_last frame_size
    require (validate_response x.response id) ToolsError.uncertain
    receive_content until
    require (not (x.response.status == response_code call_failed)) ToolsError.uncertain
    require (not (x.response.status == response_code response_too_large)) ToolsError.uncertain
    require (x.response.status == response_code completed) ToolsError.uncertain
    require (x.message_made && x.bytes_read == x.response.payload_bytes) ToolsError.uncertain
    require x.encoded ToolsError.permanent
    done x.value

  -- With the helper process; `id` is the request id.
  unfoldable pub call_helper : (id : ℕ) → Ending Response
  unfolding runtime_deadline pre_commit write_pre_commit post_commit
  call_helper id =
      let until = runtime_deadline q.deadline_unix_nanos x.started_at in
      let (sent, n) = write_pre_commit q.deadline_unix_nanos until x.commit_rounds frame_size 0 in
      commit_between (pre_commit until id) sent n (post_commit until id)

  -- A helper that did not start.
  unfoldable pub not_started : Step Response
  unfolding require_pre_dispatch_allowed
  not_started = do
    require_pre_dispatch_allowed q.deadline_unix_nanos x.not_started
    threw ToolsError.transient

  -- With the permit: `meanwhile` is what other calls do before it is released.
  unfoldable pub call_permitted : (Invoker → Invoker) → Invoker → Invoker × Ending Response
  unfolding next_request_id call_helper not_started
  call_permitted meanwhile s =
      let (t, id) = next_request_id s in
      if x.started
      then (release_in_flight (meanwhile t), call_helper id)
      else (release_in_flight (meanwhile s), ends 0 not_started)

  unfoldable pub call : (Invoker → Invoker) → Invoker → Invoker × Ending Response
  unfolding prepare acquire_in_flight call_permitted
  call meanwhile s =
      let (t, permitted) = acquire_in_flight s in
      if_prepared prepare permitted s (call_permitted meanwhile t)
