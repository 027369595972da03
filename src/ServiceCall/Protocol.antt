-- ===== src/ServiceCall/Protocol.antt =====
-- The frames between the service invoker and its helper process
-- (src/ros1_tools_adapter/include/xgc_ros1_tools_adapter/service_helper_protocol.hpp). A field is a
-- number of its width; a cast to 32 bits is written out.
use xgc2_ros1_adapter.Common.{
  ℕ, zero, suc, ◌%◌, ◌^◌, Bool, true, List, [], ◌∷◌, ◌&&◌, ◌||◌, not, ltb, leb, ◌==◌, Bytes, length,
}

abbrev pub protocol_magic : ℕ
protocol_magic = 0x58325253

abbrev pub protocol_version : ℕ
protocol_version = 1

abbrev pub maximum_service_name_bytes : ℕ
maximum_service_name_bytes = 4096

abbrev pub service_md5_size : ℕ
service_md5_size = 32

abbrev pub maximum_service_payload_bytes : ℕ
maximum_service_payload_bytes = 8388608

abbrev pub maximum_service_wait_milliseconds : ℕ
maximum_service_wait_milliseconds = 300000

-- `sizeof(ServiceHelperFrame)`.
abbrev pub frame_size : ℕ
frame_size = 64

pub data FrameKind : Type 0 where
  request ready commit response : FrameKind

abbrev pub kind_code : FrameKind → ℕ
kind_code request = 1
kind_code ready = 2
kind_code commit = 3
kind_code response = 4

pub data ReadyStatus : Type 0 where
  is_ready service_unavailable protocol_error : ReadyStatus

abbrev pub ready_code : ReadyStatus → ℕ
ready_code is_ready = 1
ready_code service_unavailable = 2
ready_code protocol_error = 3

pub data ResponseStatus : Type 0 where
  completed call_failed response_too_large protocol_error : ResponseStatus

abbrev pub response_code : ResponseStatus → ℕ
response_code completed = 1
response_code call_failed = 2
response_code response_too_large = 3
response_code ResponseStatus.protocol_error = 4

pub record Frame : Type 0 where
  pub magic : ℕ
  pub version : ℕ
  pub kind : ℕ
  pub request_id : ℕ
  pub status : ℕ
  pub service_name_bytes : ℕ
  pub service_md5_bytes : ℕ
  pub payload_bytes : ℕ
  pub wait_for_service_ms : ℕ
  pub reserved : List ℕ

abbrev pub zeros : ℕ → List ℕ
zeros zero = []
zeros (suc n) = 0 ∷ zeros n

unfoldable pub bytes_are_zero : List ℕ → Bool
bytes_are_zero [] = true
bytes_are_zero (b ∷ bs) = b == 0 && bytes_are_zero bs

-- A hexadecimal digit of either case.
abbrev is_hex : ℕ → Bool
is_hex c = (leb b'0' c && leb c b'9') || ((leb b'a' c && leb c b'f') || (leb b'A' c && leb c b'F'))

pub all_hex : Bytes → Bool
all_hex [] = true
all_hex (c ∷ cs) = is_hex c && all_hex cs

unfoldable pub valid_service_md5 : Bytes → Bool
unfolding all_hex
valid_service_md5 value = length value == service_md5_size && all_hex value

abbrev empty_frame : FrameKind → (request_id : ℕ) → Frame
empty_frame kind request_id = record {
  magic = protocol_magic;
  version = protocol_version;
  kind = kind_code kind;
  request_id = request_id;
  status = 0;
  service_name_bytes = 0;
  service_md5_bytes = 0;
  payload_bytes = 0;
  wait_for_service_ms = 0;
  reserved = zeros 28;
}

abbrev pub make_request : (id name_bytes md5_bytes payload_bytes wait : ℕ) → Frame
make_request id name_bytes md5_bytes payload_bytes wait = record (empty_frame request id) {
  service_name_bytes = name_bytes % 2 ^ 32;
  service_md5_bytes = md5_bytes % 2 ^ 32;
  payload_bytes = payload_bytes % 2 ^ 32;
  wait_for_service_ms = wait;
}

abbrev pub make_ready : (id : ℕ) → ReadyStatus → Frame
make_ready id status = record (empty_frame ready id) { status = ready_code status }

abbrev pub make_commit : (id : ℕ) → Frame
make_commit id = empty_frame commit id

abbrev pub make_response : (id : ℕ) → ResponseStatus → (payload_bytes : ℕ) → Frame
make_response id status payload_bytes = record (empty_frame response id) {
  status = response_code status;
  payload_bytes = payload_bytes % 2 ^ 32;
}

unfoldable pub valid_frame_base : Frame → Bool
unfolding bytes_are_zero
valid_frame_base f =
    f.magic == protocol_magic
    && (f.version == protocol_version && (not (f.request_id == 0) && bytes_are_zero f.reserved))

unfoldable pub validate_request : Frame → Bool
unfolding valid_frame_base
validate_request f =
    valid_frame_base f
    && (f.kind == kind_code request
        && (f.status == 0
            && (ltb 0 f.service_name_bytes
                && (leb f.service_name_bytes maximum_service_name_bytes
                    && (f.service_md5_bytes == service_md5_size
                        && (leb f.payload_bytes maximum_service_payload_bytes
                            && leb f.wait_for_service_ms maximum_service_wait_milliseconds))))))

unfoldable pub validate_ready : Frame → (id : ℕ) → Bool
unfolding valid_frame_base
validate_ready f id =
    valid_frame_base f
    && (f.request_id == id
        && (f.kind == kind_code ready
            && (f.service_name_bytes == 0
                && (f.service_md5_bytes == 0
                    && (f.payload_bytes == 0
                        && (f.wait_for_service_ms == 0
                            && (f.status == ready_code is_ready
                                || (f.status == ready_code service_unavailable
                                    || f.status == ready_code protocol_error))))))))

unfoldable pub validate_commit : Frame → (id : ℕ) → Bool
unfolding valid_frame_base
validate_commit f id =
    valid_frame_base f
    && (f.request_id == id
        && (f.kind == kind_code commit
            && (f.status == 0
                && (f.service_name_bytes == 0
                    && (f.service_md5_bytes == 0
                        && (f.payload_bytes == 0 && f.wait_for_service_ms == 0))))))

unfoldable pub validate_response : Frame → (id : ℕ) → Bool
unfolding valid_frame_base
validate_response f id =
    valid_frame_base f
    && (f.request_id == id
        && (f.kind == kind_code response
            && (f.service_name_bytes == 0
                && (f.service_md5_bytes == 0
                    && (f.wait_for_service_ms == 0
                        && (leb f.payload_bytes maximum_service_payload_bytes
                            && (f.status == response_code completed
                                || (f.payload_bytes == 0
                                    && (f.status == response_code call_failed
                                        || (f.status == response_code response_too_large
                                            || f.status
                                              == response_code
                                                  ResponseStatus.protocol_error))))))))))
