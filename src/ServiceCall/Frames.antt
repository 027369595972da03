-- ===== src/ServiceCall/Frames.antt =====
-- Which frames the two ends of a service call accept
-- (src/ros1_tools_adapter/include/xgc_ros1_tools_adapter/service_helper_protocol.hpp).
use xgc2_ros1_adapter.Common.{
  ℕ, zero, suc, ◌<◌, ◌≤◌, ◌≡◌, ◌≢◌, refl, sym, subst, ◌↔◌, ◌⊎◌, inl, inr, true, List, [], ◌∷◌,
  length, arith,
}
use xgc2_ros1_adapter.ServiceCall.Protocol.{
  Frame, ReadyStatus, is_ready, service_unavailable, ResponseStatus, completed, call_failed,
  response_too_large, zeros, bytes_are_zero, make_ready, make_commit, make_response, make_request,
  validate_ready, validate_commit, validate_response, validate_request,
  maximum_service_payload_bytes, maximum_service_wait_milliseconds, maximum_service_name_bytes,
  service_md5_size,
}

-- The 28 reserved bytes of the struct.
abbrev pub HasLayout : Frame → Type 0
HasLayout f = length f.reserved ≡ 28

zeros_zero : (n : ℕ) → bytes_are_zero (zeros n) ≡ true
unfolding bytes_are_zero
zeros_zero zero = refl
zeros_zero (suc n) = ground (arith, zeros_zero n)

eq-zeros : (n : ℕ) (bs : List ℕ) → bytes_are_zero bs ≡ true → length bs ≡ n → bs ≡ zeros n
unfolding bytes_are_zero
eq-zeros zero [] h e = refl
eq-zeros zero (b ∷ bs) h e = absurd (omega arith)
eq-zeros (suc n) [] h e = absurd (omega arith)
eq-zeros (suc n) (b ∷ bs) h e = ground (arith, eq-zeros n bs)

commit_of_valid :
    (f : Frame) (id : ℕ)
    → HasLayout f
    → validate_commit f id ≡ true
    → (id ≢ 0) × (f ≡ make_commit id)
unfolding validate_commit
commit_of_valid f id l h = (ground arith, ground (arith, eq-zeros 28 f.reserved))

make_commit-valid : (id : ℕ) → id ≢ 0 → validate_commit (make_commit id) id ≡ true
unfolding validate_commit
make_commit-valid id h = ground (arith, zeros_zero 28)

ready_of_valid :
    (f : Frame) (id : ℕ)
    → HasLayout f
    → validate_ready f id ≡ true
    → (id ≢ 0) × ((s : ReadyStatus) × (f ≡ make_ready id s))
unfolding validate_ready
ready_of_valid f id l h =
    let z = eq-zeros 28 f.reserved in
    let c : (f.status ≡ 1) ⊎ ((f.status ≡ 2) ⊎ (f.status ≡ 3)) = ground arith in
    (
      ground arith,
      elim c [
        | inl e ↦ (is_ready, ground (arith, z))
        | inr (inl e) ↦ (service_unavailable, ground (arith, z))
        | inr (inr e) ↦ (ReadyStatus.protocol_error, ground (arith, z))
      ],
    )

make_ready-valid : (id : ℕ) (s : ReadyStatus) → id ≢ 0 → validate_ready (make_ready id s) id ≡ true
unfolding validate_ready
make_ready-valid id s h = ground (arith, zeros_zero 28)

-- What a response frame may carry: only a completed call has a payload.
abbrev pub Carries : ResponseStatus → ℕ → Type 0
Carries completed n = n ≤ maximum_service_payload_bytes
Carries _ n = n ≡ 0

response_of_valid :
    (f : Frame) (id : ℕ)
    → HasLayout f
    → validate_response f id ≡ true
    → (id ≢ 0)
      × ((s : ResponseStatus) × (Carries s f.payload_bytes
            × (f ≡ make_response id s f.payload_bytes)))
unfolding validate_response
response_of_valid f id l h =
    let z = eq-zeros 28 f.reserved in
    let c : (f.status ≡ 1) ⊎ ((f.status ≡ 2) ⊎ ((f.status ≡ 3) ⊎ (f.status ≡ 4))) = ground arith in
    (
      ground arith,
      elim c [
        | inl e ↦ (completed, (ground arith, ground (arith, z)))
        | inr (inl e) ↦ (call_failed, (ground arith, ground (arith, z)))
        | inr (inr (inl e)) ↦ (response_too_large, (ground arith, ground (arith, z)))
        | inr (inr (inr e)) ↦ (ResponseStatus.protocol_error, (ground arith, ground (arith, z)))
      ],
    )

make_response-valid :
    (id : ℕ) (s : ResponseStatus) (n : ℕ)
    → id ≢ 0
    → Carries s n
    → validate_response (make_response id s n) id ≡ true
unfolding validate_response
make_response-valid id s n h c = ground (arith, zeros_zero 28)

-- The frame of every request that the invoker lets through passes the helper's check.
pub make_request-valid :
    (id name md5 payload wait : ℕ)
    → id ≢ 0
    → 0 < name
    → name ≤ maximum_service_name_bytes
    → md5 ≡ service_md5_size
    → payload ≤ maximum_service_payload_bytes
    → wait ≤ maximum_service_wait_milliseconds
    → validate_request (make_request id name md5 payload wait) ≡ true
unfolding validate_request
make_request-valid id name md5 payload wait h a b c d e = ground (arith, zeros_zero 28)

abbrev pub IsReady : Frame → ℕ → Type 0
IsReady f id = (id ≢ 0) × ((s : ReadyStatus) × (f ≡ make_ready id s))

abbrev pub IsCommit : Frame → ℕ → Type 0
IsCommit f id = (id ≢ 0) × (f ≡ make_commit id)

abbrev pub IsResponse : Frame → ℕ → Type 0
IsResponse f id =
    (id ≢ 0)
    × ((s : ResponseStatus) × (Carries s f.payload_bytes
          × (f ≡ make_response id s f.payload_bytes)))

-- Each end accepts exactly the frames that the other builds: a frame of 64 bytes passes the check of
-- a ready, a commit or a response frame with a request id if and only if the id is not zero and it is
-- the frame of that kind that is made for that id, a ready or response frame with some status of its
-- kind, and a response frame with a payload size that is within the limit for a completed call and
-- zero for any other.
pub validated_frames :
    (f : Frame) (id : ℕ)
    → HasLayout f
    → ((validate_ready f id ≡ true) ↔ IsReady f id)
      × ((validate_commit f id ≡ true) ↔ IsCommit f id)
      × ((validate_response f id ≡ true) ↔ IsResponse f id)
validated_frames f id l = (
  (
    ready_of_valid f id l,
    λ h. subst (λ g. validate_ready g id ≡ true) (sym h.1.1) (make_ready-valid id h.1.0 h.0),
  ),
  (
    commit_of_valid f id l,
    λ h. subst (λ g. validate_commit g id ≡ true) (sym h.1) (make_commit-valid id h.0),
  ),
  (
    response_of_valid f id l,
    λ h.
        subst (λ g. validate_response g id ≡ true) (sym h.1.1.1)
          (make_response-valid id h.1.0 f.payload_bytes h.0 h.1.1.0),
  ),
)
