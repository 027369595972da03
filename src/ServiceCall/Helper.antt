-- ===== src/ServiceCall/Helper.antt =====
-- `runHelper` (src/ros1_tools_adapter/src/service_helper_main.cpp), the helper process of a service
-- call. The socket, the name check, roscpp and its clock answer by arguments. A helper that still
-- waits has done what one did that gave up there.
use xgc2_ros1_adapter.Common.{
  ℕ, zero, suc, ◌+◌, ◌-◌, Bool, true, false, List, [], ◌∷◌, Option, none, some, ◌&&◌, ◌||◌, not,
  leb, ◌==◌, if◌then◌else◌, Bytes, is_empty,
}
use xgc2_ros1_adapter.ServiceCall.Protocol.{
  Frame, ReadyStatus, is_ready, service_unavailable, ResponseStatus, completed, call_failed,
  response_too_large, validate_request, validate_commit, valid_service_md5, frame_size,
  maximum_service_payload_bytes,
}
use xgc2_ros1_adapter.ServiceCall.Sockets.{Transfer, moved, would_block, Polled}

pub record Round : Type 0 where
  pub transfer : Transfer
  pub polls : List Polled

-- `wanted` is the event without an error event.
unfoldable pub wait_for_socket : List Polled → Bool
wait_for_socket [] = false
wait_for_socket (Polled.interrupted ∷ rest) = wait_for_socket rest
wait_for_socket (Polled.wanted ∷ rest) = true
wait_for_socket (Polled.failed ∷ rest) = false
wait_for_socket (Polled.timed_out ∷ rest) = false
wait_for_socket (Polled.disconnected ∷ rest) = false
wait_for_socket (Polled.other ∷ rest) = false

-- `size` bytes are left, `received` were read; the result has the number that was read.
unfoldable pub read_exact : List Round → (size received : ℕ) → Bool × ℕ
unfolding wait_for_socket
read_exact rounds zero received = (true, received)
read_exact [] (suc n) received = (false, received)
read_exact (a ∷ rest) (suc n) received =
    let again = read_exact rest (suc n) received in
    let next = λ (k : ℕ). read_exact rest (suc n - k) (received + k) in
    elim a.transfer [
      | moved k ↦ (if k == 0 then (false, received) else next k)
      | Transfer.interrupted ↦ again
      | Transfer.failed ↦ (false, received)
      | would_block ↦ (if wait_for_socket a.polls then again else (false, received))
    ]

-- One look at the service and the clock.
pub record Look : Type 0 where
  pub exists : Bool
  pub ros_ok : Bool
  pub now : ℕ

-- The times are in milliseconds.
unfoldable pub service_available : (wait_for_service_ms deadline : ℕ) → List Look → Bool
service_available wait deadline [] = false
service_available wait deadline (l ∷ ls) =
    let rest = service_available wait deadline ls in
    if l.exists
    then true
    else (if not l.ros_ok || (wait == 0 || leb deadline l.now) then false else rest)

-- A pointer into the response's buffer is its offset.
pub record Message : Type 0 where
  pub size : ℕ
  pub has_buffer : Bool
  pub offset : Option ℕ

unfoldable pub response_payload : Message → Option ℕ
response_payload m =
    if m.size == 0
    then some 0
    else (if m.has_buffer
        then elim m.offset [
          | none ↦ none
          | some o ↦ if leb o m.size then some (m.size - o) else none
        ]
        else none)

-- The answers during one run, in the order of the code.
pub record Answers : Type 0 where
  pub frame_rounds : List Round
  pub frame : Frame
  pub service_rounds : List Round
  pub service : Bytes
  pub md5_rounds : List Round
  pub md5 : Bytes
  pub payload_rounds : List Round
  pub name_validates : Bool
  pub asked_at : ℕ
  pub looks : List Look
  pub client_made : Bool
  pub ready_written : Bool
  pub commit_rounds : List Round
  pub commit : Frame
  pub called : Bool
  pub message : Message

-- What the helper did: the frames that it began to write, whether it called the service, and the
-- bytes of a commit frame that it read.
pub record Done : Type 0 where
  pub ready : Option ReadyStatus
  pub commit_bytes : ℕ
  pub called : Bool
  pub response : Option ResponseStatus

abbrev silent : Done
silent = record { ready = none; commit_bytes = 0; called = false; response = none }

abbrev said : ReadyStatus → Done
said r = record silent { ready = some r }

-- Bytes are compared with the slash.
unfoldable pub valid_absolute_service_name : (validates : Bool) → Bytes → Bool
valid_absolute_service_name validates [] = false
valid_absolute_service_name validates (c ∷ cs) = c == b'/' && (not (is_empty cs) && validates)

module _ (x : Answers) where
  -- The request frame and what follows it.
  unfoldable pub read_request : Bool
  unfolding read_exact
  read_request =
      (read_exact x.frame_rounds frame_size 0).0
      && (validate_request x.frame
          && ((read_exact x.service_rounds x.frame.service_name_bytes 0).0
              && ((read_exact x.md5_rounds x.frame.service_md5_bytes 0).0
                  && (x.frame.payload_bytes == 0
                      || (read_exact x.payload_rounds x.frame.payload_bytes 0).0))))

  -- What is answered to a request that was read.
  unfoldable pub readiness : ReadyStatus
  unfolding valid_absolute_service_name service_available
  readiness =
      if not (valid_absolute_service_name x.name_validates x.service && valid_service_md5 x.md5)
      then ReadyStatus.protocol_error
      else (if not (
            service_available x.frame.wait_for_service_ms (x.asked_at + x.frame.wait_for_service_ms)
              x.looks)
          then service_unavailable
          else (if x.client_made then is_ready else ReadyStatus.protocol_error))

  -- What is answered after the call.
  unfoldable pub response_status : ResponseStatus
  unfolding response_payload
  response_status = if not x.called then call_failed else elim (response_payload x.message) [
    | none ↦ ResponseStatus.protocol_error
    | some size ↦ if leb size maximum_service_payload_bytes then completed else response_too_large
  ]

  -- From the frame that says that the helper is ready.
  unfoldable pub run_ready : Done
  unfolding read_exact response_status
  run_ready =
      let (whole, n) = read_exact x.commit_rounds frame_size 0 in
      if x.ready_written
      then (if whole && validate_commit x.commit x.frame.request_id
          then record {
            ready = some is_ready;
            commit_bytes = n;
            called = true;
            response = some response_status;
          }
          else record (said is_ready) { commit_bytes = n })
      else said is_ready

  unfoldable pub run_helper : Done
  unfolding read_request readiness run_ready
  run_helper =
      if read_request
      then elim readiness [ is_ready ↦ run_ready | refused ↦ said refused ]
      else silent
