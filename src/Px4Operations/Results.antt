-- ===== src/Px4Operations/Results.antt =====
-- What an answer of the autopilot means (src/px4_multirotor_ros1_adapter/src/px4_operations.cpp). The
-- texts of the results are left out.
use xgc2_ros1_adapter.Common.{
  ℕ, ◌≡◌, refl, Bool, true, false, Option, none, some, not, ◌&&◌, ◌||◌, leb, ◌==◌, if◌then◌else◌,
  arith, Bytes,
}

pub data OperationOutcome : Type 0 where
  succeeded not_ready rejected unsupported uncertain transport_error : OperationOutcome

pub record OperationResult : Type 0 where
  pub outcome : OperationOutcome
  pub dispatched : Bool
  pub native_result : Option ℕ

-- `OperationResult()`.
abbrev pub new_result : OperationResult
new_result = record { outcome = transport_error; dispatched = false; native_result = none }

abbrev pub is_succeeded : OperationResult → Bool
is_succeeded r = elim r.outcome [ succeeded ↦ true | _ ↦ false ]

-- The outcome of a native result, an unsigned byte, that is not an acceptance.
unfoldable pub native_failure_outcome : (result : ℕ) → OperationOutcome
native_failure_outcome result =
    if result == 1
    then not_ready
    else (if result == 5
        then uncertain
        else (if result == 3
            then unsupported
            else (if result == 0
                then uncertain
                else (if result == 2 || (result == 4 || result == 6)
                    then rejected
                    else uncertain))))

unfoldable pub native_command_result : (success : Bool) (native_result : ℕ) → OperationResult
unfolding native_failure_outcome
native_command_result success native_result = record {
  outcome =
      if success && native_result == 0 then succeeded else native_failure_outcome native_result;
  dispatched = true;
  native_result = some native_result;
}

-- The answers of the autopilot's services.
pub data Response : Type 0 where
  arm : (requested_armed success : Bool) (result : ℕ) → Response
  mode : (requested_mode : Bytes) (mode_sent : Bool) → Response
  autopilot_reboot : (success : Bool) (result : ℕ) → Response
  force_disarm : (success : Bool) (result : ℕ) → Response

unfoldable pub interpret : Response → OperationResult
unfolding native_command_result
interpret (arm requested_armed success result) = native_command_result success result
interpret (mode requested_mode mode_sent) = record {
  outcome = if mode_sent then succeeded else rejected;
  dispatched = true;
  native_result = none;
}
interpret (autopilot_reboot success result) = native_command_result success result
interpret (force_disarm success result) = native_command_result success result

-- An answer that says the autopilot did it, and one that says what it does not do.
abbrev says_done : (success : Bool) (result : ℕ) → Bool
says_done success result = success && result == 0

abbrev says_refused : (result : ℕ) → Bool
says_refused result = leb 1 result && (leb result 6 && not (result == 5))

abbrev pub is_done : Response → Bool
is_done (arm requested success result) = says_done success result
is_done (mode requested sent) = sent
is_done (autopilot_reboot success result) = says_done success result
is_done (force_disarm success result) = says_done success result

abbrev pub is_refused : Response → Bool
is_refused (arm requested success result) = says_refused result
is_refused (mode requested sent) = not sent
is_refused (autopilot_reboot success result) = says_refused result
is_refused (force_disarm success result) = says_refused result

abbrev pub is_uncertain : OperationOutcome → Bool
is_uncertain uncertain = true
is_uncertain _ = false

abbrev Sound : (done refused : Bool) → OperationResult → Type 0
Sound done refused r =
    (is_succeeded r ≡ done)
    × (is_uncertain r.outcome ≡ (not done && not refused))
    × (r.dispatched ≡ true)

native_command_result-Sound :
    (success : Bool) (result : ℕ)
    → Sound (says_done success result) (says_refused result) (native_command_result success result)
unfolding native_command_result native_failure_outcome
native_command_result-Sound true result = (ground arith, ground arith, refl)
native_command_result-Sound false result = (ground arith, ground arith, refl)

-- Whatever the autopilot answers, to any request: the result is a success exactly if the answer says
-- that it was done, and it is uncertain exactly if the answer says neither that it was done nor that it
-- is refused; the result is always one of a request that was sent.
pub interpret_lem :
    (r : Response)
    → (is_succeeded (interpret r) ≡ is_done r)
      × (is_uncertain (interpret r).outcome ≡ (not (is_done r) && not (is_refused r)))
      × ((interpret r).dispatched ≡ true)
unfolding interpret
interpret_lem (arm requested success result) = native_command_result-Sound success result
interpret_lem (mode requested true) = (refl, refl, refl)
interpret_lem (mode requested false) = (refl, refl, refl)
interpret_lem (autopilot_reboot success result) = native_command_result-Sound success result
interpret_lem (force_disarm success result) = native_command_result-Sound success result
