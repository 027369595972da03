-- ===== src/ServiceCall/Scenarios.antt =====
-- Tests of src/ros1_tools_adapter/src/service_invoker.cpp and service_helper_main.cpp, and the
-- theorems at concrete inputs.
use xgc2_ros1_adapter.Common.{
  ℕ, ◌≤◌, ◌≡◌, ◌≢◌, ◌↔◌, refl, true, false, List, [], ◌∷◌, ◌++◌, some, arith, Bytes,
}
use xgc2_ros1_adapter.Common.Int.{pos}
use xgc2_ros1_adapter.PublisherRegistry.State.{ToolsError}
use xgc2_ros1_adapter.ServiceCall.Protocol.{
  frame_size, is_ready, make_request, make_ready, make_commit, make_response, completed,
  validate_ready, validate_commit, validate_response, bytes_are_zero, valid_frame_base,
  valid_service_md5, validate_request,
}
use xgc2_ros1_adapter.ServiceCall.Sockets.{
  Reading, PreCommitRound, PostCommitRound, moved, Transfer, Polled, deadline_expired,
  runtime_deadline, poll_timeout, wait_pre_commit_event, write_pre_commit, post_commit_refusal,
  read_post_commit,
}
use xgc2_ros1_adapter.ServiceCall.Invoker.{
  Invoker, Request, Answers, done, threw, waits, Ending, new_invoker, acquire_in_flight,
  next_request_id, prepare, pre_commit, post_commit, call_helper, not_started, call_permitted, call,
  require_pre_dispatch_allowed, serialize_service_request,
}
use xgc2_ros1_adapter.ServiceCall.Helper
use xgc2_ros1_adapter.ServiceCall.Helper.{
  Round, wait_for_socket, read_exact, service_available, response_payload,
  valid_absolute_service_name, read_request, readiness, response_status, run_ready, run_helper,
}
use xgc2_ros1_adapter.ServiceCall.Frames.{IsReady, IsCommit, IsResponse, validated_frames}
use xgc2_ros1_adapter.ServiceCall.Boundary.{failed_call-uncalled, call_uncertain}
use xgc2_ros1_adapter.ServiceCall.Termination.{call_ends}
use xgc2_ros1_adapter.ServiceCall.Permits.{
  Section, acquires, releases, run_sections, permits_bounded,
}

service_code : Unit {0}
unfolding bytes_are_zero valid_frame_base valid_service_md5 validate_request validate_ready
    validate_commit validate_response deadline_expired runtime_deadline poll_timeout
    wait_pre_commit_event write_pre_commit post_commit_refusal read_post_commit new_invoker
    acquire_in_flight next_request_id require_pre_dispatch_allowed serialize_service_request prepare
    pre_commit post_commit call_helper not_started call_permitted call wait_for_socket read_exact
    service_available response_payload valid_absolute_service_name read_request readiness
    response_status run_ready run_helper run_sections
service_code = tt

abbrev early : Reading
early = record { cancellation_requested = false; system_now = pos 1000; steady_now = 5000 }

abbrev late : Reading
late = record { cancellation_requested = true; system_now = pos 9000; steady_now = 9000 }

-- Some bytes are moved; should more be wanted, the next look finds the caller gone.
abbrev moves : ℕ → List PreCommitRound
moves k =
    record {
      before = early;
      transfer = moved k;
      waits = record { before = late; polled = Polled.other } ∷ [];
    }
    ∷ record {
      before = late;
      transfer = Transfer.interrupted;
      waits = record { before = late; polled = Polled.other } ∷ [];
    }
    ∷ []

abbrev gets : ℕ → List PostCommitRound
gets k =
    record { before = early; transfer = moved k; polled = Polled.other }
    ∷ record { before = late; transfer = Transfer.interrupted; polled = Polled.other }
    ∷ []

abbrev sixteen : Bytes
sixteen = 48 ∷ 49 ∷ 50 ∷ 51 ∷ 52 ∷ 53 ∷ 54 ∷ 55 ∷ 56 ∷ 57 ∷ 97 ∷ 98 ∷ 99 ∷ 100 ∷ 101 ∷ 102 ∷ []

abbrev md5 : Bytes
md5 = sixteen ++ sixteen

abbrev service : Bytes
service = b'/' ∷ b'a' ∷ []

abbrev request : Request
request = record {
  service = service;
  wait_for_service_ms = 5;
  call_timeout_ms = 10;
  deadline_unix_nanos = pos 2000;
}

-- `k` bytes of the commit frame are sent before the caller is gone.
abbrev answers : (k : ℕ) → Answers ℕ
answers k = record {
  first = early;
  resolved = true;
  has_response_template = true;
  decoded = true;
  payload_size = 3;
  written = 3;
  second = early;
  has_description = true;
  md5 = md5;
  started = true;
  not_started = early;
  started_at = early;
  frame_rounds = moves 64;
  service_rounds = moves 2;
  md5_rounds = moves 32;
  payload_rounds = moves 3;
  ready_rounds = moves 64;
  ready = make_ready 1 is_ready;
  third = early;
  commit_rounds = moves k;
  committed_at = 5000;
  response_rounds = gets 64;
  response_last = early;
  response = make_response 1 completed 4;
  content_rounds = gets 4;
  content_last = early;
  message_made = true;
  bytes_read = 4;
  encoded = true;
  value = 77;
}

abbrev invoker : Invoker
invoker = record { maximum_in_flight = 2; in_flight = 0; next = 1 }

abbrev gets_all : ℕ → List Round
gets_all k = record { transfer = moved k; polls = [] } ∷ []

abbrev helper : (k : ℕ) → Helper.Answers
helper k = record {
  frame_rounds = gets_all 64;
  frame = make_request 1 2 32 3 5;
  service_rounds = gets_all 2;
  service = service;
  md5_rounds = gets_all 32;
  md5 = md5;
  payload_rounds = gets_all 3;
  name_validates = true;
  asked_at = 0;
  looks = record { exists = true; ros_ok = true; now = 0 } ∷ [];
  client_made = true;
  ready_written = true;
  commit_rounds = gets_all k;
  commit = make_commit 1;
  called = true;
  message = record { size = 4; has_buffer = true; offset = some 0 };
}

abbrev call_with : ℕ → Invoker × Ending ℕ
call_with k = call request (answers k) (λ s. s) invoker

calls_once :
    ((call_with 64).1.outcome ≡ done 77)
    × ((call_with 64).0.in_flight ≡ 0)
    × ((run_helper (helper 64)).called ≡ true)
    × ((run_helper (helper 64)).response ≡ some completed)
unfolding service_code
calls_once = (refl, refl, refl, refl)

cancelled_in_commit :
    ((call_with 10).1.outcome ≡ threw ToolsError.cancelled) × ((call_with 10).1.commit_bytes ≡ 10)
unfolding service_code
cancelled_in_commit = (refl, refl)

failed_call-uncalled_example : (run_helper (helper 10)).called ≡ false
unfolding service_code
failed_call-uncalled_example =
    failed_call-uncalled request (answers 10) (λ s. s) invoker (helper 10) ToolsError.cancelled
      (omega arith) refl (λ e. cc)

call_uncertain_example :
    (ToolsError.cancelled ≡ ToolsError.uncertain) ↔ (frame_size ≤ (call_with 10).1.commit_bytes)
unfolding service_code
call_uncertain_example =
    call_uncertain request (answers 10) (λ s. s) invoker ToolsError.cancelled refl

call_ends_example : (call_with 10).1.outcome ≢ waits
unfolding service_code
call_ends_example =
    call_ends request (answers 10) (λ s. s) invoker
      (record {
        frame_answers = (refl, (refl, (refl, tt)));
        service_answers = (refl, (refl, (refl, tt)));
        md5_answers = (refl, (refl, (refl, tt)));
        payload_answers = (refl, (refl, (refl, tt)));
        ready_answers = (refl, (refl, (refl, tt)));
        commit_answers = (refl, (refl, (refl, tt)));
        response_answers = refl;
        content_answers = refl;
      })

validated_frames_example :
    let f = make_response 7 completed 4 in
    ((validate_ready f 7 ≡ true) ↔ IsReady f 7)
    × ((validate_commit f 7 ≡ true) ↔ IsCommit f 7)
    × ((validate_response f 7 ≡ true) ↔ IsResponse f 7)
validated_frames_example = validated_frames (make_response 7 completed 4) 7 refl

abbrev sections : List Section
sections = acquires ∷ acquires ∷ acquires ∷ releases ∷ []

permits_bounded_example :
    let (t, held) = run_sections sections (invoker, 0) in
    (t.in_flight ≡ held)
    × (held ≤ 2)
    × ((call request (answers 64) (λ s. s) t).0.in_flight ≡ t.in_flight)
unfolding service_code
permits_bounded_example =
    permits_bounded 2 invoker sections request (answers 64) (λ s. s) refl (λ t. refl)
