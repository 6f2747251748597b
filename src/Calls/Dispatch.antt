-- ===== src/Calls/Dispatch.antt =====
-- backend/lambdas/connect_dispatcher/handler.py: one call to an employee. `str` of a value and the
-- digest of the mock are parameters, and so is the mode. The log messages are left out.
pub mod Event
use Prim.Native.String.{◌++◌}
use emergency_contact.Prelude.{
  ℕ, zero, suc, String, Bool, true, false, not, Option, none, some, List, [], ◌∷◌, str_eq, ltb,
  if◌then◌else◌,
}
use emergency_contact.Python.Results.{Result, ok, err, Error, client_error, exhausted, value_error}
use emergency_contact.Python.Values.{Value, null, bool, str, dict, Fields, end, field, mem}
use emergency_contact.Python.Actions.{Action, pure, lift, attempt, ◌>>=◌}
use emergency_contact.Connect.Mock.{derive_mock_response}
use emergency_contact.Recording.Keys.{derive_target_outbound_key}
use emergency_contact.Aws.Tables.{set_field, add_one_to, not_exists, always}
use emergency_contact.Aws.Retries.{retry}
use emergency_contact.Calls.Services.{Services}
use emergency_contact.Calls.Dispatch.Event.{Parsed, parse_event}

-- `dispatched` has the contact id and the flag "retry"; `failed` is the reply of exhausted retries.
pub data Reply : Type 0 where
  dispatched : String → Bool → Reply
  failed : Reply

abbrev pub max_dispatch_attempts : ℕ
max_dispatch_attempts = 3

abbrev pub retryable_error_codes : List String
retryable_error_codes = "ThrottlingException" ∷ "LimitExceededException" ∷ []

unfoldable pub is_retryable : Error → Bool
is_retryable (client_error code) = mem code retryable_error_codes
is_retryable _ = false

unfoldable pub is_exhausted : Error → Bool
is_exhausted exhausted = true
is_exhausted _ = false

-- A contact id is a text that is not empty.
unfoldable pub require_contact_id : Value → Result String
require_contact_id (str s) = if str_eq s "" then err value_error else ok s
require_contact_id _ = err value_error

-- SET contactId = :cid, dispatchedAt = :now ADD callAttempts :one
unfoldable pub count_success : String → String → Fields → Fields
count_success contact_id now row =
    add_one_to "callAttempts"
      (set_field "dispatchedAt" (str now) (set_field "contactId" (str contact_id) row))

-- SET callResultCode = :code, dispatchedAt = :now ADD callAttempts :one
unfoldable pub count_error : String → Fields → Fields
count_error now row =
    add_one_to "callAttempts"
      (set_field "dispatchedAt" (str now) (set_field "callResultCode" (str "ERROR") row))

unfoldable pub retry_output : Value
retry_output = dict (field "retry" (bool true) (field "reason" (str "DISPATCH_FAILED") end))

unfoldable pub mock_output : String → String → Bool → Value
mock_output contact_id call_result_code retry = dict (
    field "retry" (bool retry)
      (field "contactId" (str contact_id) (field "callResultCode" (str call_result_code) end)))

module _ {W : Type 0} (s : Services W) (text_of : Value → String) (first_byte : String → ℕ) where
  unfoldable pub attributes_of : Parsed → Fields
  attributes_of parsed = field "cycleId" parsed.cycle_id (
      field "employeeId" parsed.employee_id
        (field "attempt" (str (text_of parsed.attempt)) (field "taskToken" parsed.task_token end)))

  -- The body of the `try`.
  unfoldable pub start_once : Parsed → Action W String
  start_once parsed = do
    contact_id ← s.start_outbound_voice_contact parsed.phone_number (attributes_of parsed)
    lift (require_contact_id contact_id)

  unfoldable pub start_outbound_call : Parsed → Action W String
  start_outbound_call parsed =
      retry is_retryable s.back_off max_dispatch_attempts (start_once parsed)

  unfoldable pub record_success : Parsed → String → Action W Bool
  record_success parsed contact_id = do
    now_iso ← s.utc_now_iso
    s.responses.update_item (parsed.cycle_id, parsed.employee_id) always
        (count_success contact_id now_iso)

  -- The answer is false where the result code was set before.
  unfoldable pub record_error : Parsed → Action W Bool
  record_error parsed = do
    now_iso ← s.utc_now_iso
    s.responses.update_item (parsed.cycle_id, parsed.employee_id) (not_exists "callResultCode")
        (count_error now_iso)

  unfoldable pub send_retry_task_success : Parsed → Action W (Unit {0})
  send_retry_task_success parsed = s.send_task_success parsed.task_token retry_output

  unfoldable pub mock_contact_id : Parsed → String
  mock_contact_id parsed =
      "mock-"
      ++ text_of parsed.cycle_id
      ++ "-"
      ++ text_of parsed.employee_id
      ++ "-"
      ++ text_of parsed.attempt

  unfoldable pub put_mock_recording : Parsed → Action W (Unit {0})
  put_mock_recording parsed = do
    key ←
        lift (derive_target_outbound_key text_of parsed.cycle_id parsed.employee_id parsed.attempt)
    s.put_object key

  unfoldable pub record_if : Bool → Parsed → Action W (Unit {0})
  record_if recorded parsed = if recorded then put_mock_recording parsed else pure tt

  unfoldable pub dispatch_mock : Parsed → Action W Reply
  dispatch_mock parsed = do
    answer ← lift (derive_mock_response first_byte parsed.employee_id)
    put ← record_if (str_eq answer.0 "RECORDED") parsed
    counted ← record_success parsed (mock_contact_id parsed)
    released ←
        s.send_task_success parsed.task_token
          (mock_output (mock_contact_id parsed) answer.0 (not (str_eq answer.0 "RECORDED")))
    pure (dispatched (mock_contact_id parsed) (not (str_eq answer.0 "RECORDED")))

  -- except _DispatchExhaustedError
  unfoldable pub after_start : Parsed → Result String → Action W Reply
  after_start parsed (ok contact_id) = do
    counted ← record_success parsed contact_id
    pure (dispatched contact_id false)
  after_start parsed (err e) =
      if is_exhausted e
      then (do
        recorded ← record_error parsed
        released ← send_retry_task_success parsed
        pure failed)
      else lift (err e)

  unfoldable pub dispatch_real : Parsed → Action W Reply
  dispatch_real parsed = do
    outcome ← attempt (start_outbound_call parsed)
    after_start parsed outcome

  unfoldable pub lambda_handler : Bool → Value → Action W Reply
  lambda_handler mock_mode event = do
    parsed ← lift (parse_event event)
    if mock_mode then dispatch_mock parsed else dispatch_real parsed
