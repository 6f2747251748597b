-- ===== src/Recording/Relocator.antt =====
-- backend/lambdas/recording_relocator/handler.py: a recording of Connect is moved to the key of its call.
-- The log messages are left out.
pub mod Distinct
pub mod Safe
use emergency_contact.Prelude.{
  ℕ, zero, suc, String, Bool, true, false, Option, none, some, List, [], ◌∷◌, if◌then◌else◌,
}
use emergency_contact.Prelude.Int.{ℤ}
use emergency_contact.Python.Results.{
  Result, ok, err, Error, client_error, exhausted, value_error, attribute_error,
}
use emergency_contact.Python.Values.{Value, int, str, Fields, get, mem}
use emergency_contact.Python.Actions.{Action, pure, lift, attempt, ◌>>=◌}
use emergency_contact.Aws.Retries.{pause}
use emergency_contact.Calls.Ending.Event.{to_int}
use emergency_contact.Inbound.Selection.{require_text}
use emergency_contact.Keyword.Event.{parse_event}
use emergency_contact.Recording.Keys.{derive_target_outbound_key}
use emergency_contact.Recording.Native.{
  ConnectNativeKeyInfo, after_prefix, parse_connect_native_key,
}

-- The calls of the handler. The query delivers the items of its answer.
pub record Services (W : Type 0) : Type 0 where
  pub query_contact : String → Action W (List Fields)
  pub copy_object : Value → String → String → Action W (Unit {0})
  pub delete_object : Value → String → Action W (Unit {0})
  pub back_off : ℕ → Action W (Unit {0})

-- `int` of a text, `str` of a value, the class `\d` of code points, and CONNECT_RECORDINGS_PREFIX.
pub record Library : Type 0 where
  pub int_of_text : String → Option ℤ
  pub text_of : Value → String
  pub is_decimal : ℕ → Bool
  pub connect_recordings_prefix : String

-- The status is "ok".
pub record Reply : Type 0 where
  pub contact_id : String
  pub cycle_id : String
  pub employee_id : String
  pub seq : ℤ
  pub source_key : String
  pub target_key : String

-- What a row of the responses says of a recording.
pub record Origin : Type 0 where
  pub cycle_id : String
  pub employee_id : String
  pub seq : ℤ

abbrev pub max_gsi_attempts : ℕ
max_gsi_attempts = 3

abbrev pub retryable_ddb_error_codes : List String
retryable_ddb_error_codes = "ThrottlingException" ∷ "ProvisionedThroughputExceededException" ∷ []

unfoldable pub is_retryable : Error → Bool
is_retryable (client_error code) = mem code retryable_ddb_error_codes
is_retryable _ = false

unfoldable pub key_if : Option String → String → Result String
key_if none key = err value_error
key_if (some rest) key = ok key

-- source_key.startswith(prefix)
unfoldable pub require_prefix : String → Value → Result String
require_prefix prefix (str key) = key_if (after_prefix prefix key) key
require_prefix prefix _ = err attribute_error

unfoldable pub require_native : Option ConnectNativeKeyInfo → Result ConnectNativeKeyInfo
require_native none = err value_error
require_native (some info) = ok info

module _ {W : Type 0} (s : Services W) (lib : Library) where
  unfoldable pub wait_then : ℕ → Action W Fields → Action W Fields
  wait_then try_idx next = do slept ← pause is_retryable s.back_off max_gsi_attempts try_idx; next

  -- The end of one turn of the loop, and the turns after it. A query without a row is tried again too.
  unfoldable pub after_query : Result (List Fields) → ℕ → Action W Fields → Action W Fields
  after_query (ok []) try_idx next = wait_then try_idx next
  after_query (ok (row ∷ rows)) try_idx next = pure row
  after_query (err e) try_idx next = if is_retryable e then wait_then try_idx next else lift (err e)

  -- The turns that are left, and the index of the next.
  unfoldable pub lookup_from : String → ℕ → ℕ → Action W Fields
  lookup_from contact_id zero try_idx = lift (err exhausted)
  lookup_from contact_id (suc left) try_idx = do
    outcome ← attempt (s.query_contact contact_id)
    after_query outcome try_idx (lookup_from contact_id left (suc try_idx))

  unfoldable pub lookup_response_by_contact_id : String → Action W Fields
  lookup_response_by_contact_id contact_id = lookup_from contact_id max_gsi_attempts 0

  unfoldable pub origin_of : Fields → Action W Origin
  origin_of row = do
    cycle_id ← lift (require_text (get "cycleId" row))
    employee_id ← lift (require_text (get "employeeId" row))
    seq ← lift (to_int lib.int_of_text (get "callAttempts" row))
    pure (record { cycle_id = cycle_id; employee_id = employee_id; seq = seq })

  unfoldable pub copy_and_delete : Value → String → String → Action W (Unit {0})
  copy_and_delete bucket source_key target_key = do
    copied ← s.copy_object bucket source_key target_key
    s.delete_object bucket source_key

  unfoldable pub target_of : Origin → Result String
  target_of o =
      derive_target_outbound_key lib.text_of (str o.cycle_id) (str o.employee_id) (int o.seq)

  unfoldable pub relocate : Value → String → ConnectNativeKeyInfo → Action W Reply
  relocate bucket source_key info = do
    row ← lookup_response_by_contact_id info.contact_id
    origin ← origin_of row
    target_key ← lift (target_of origin)
    moved ← copy_and_delete bucket source_key target_key
    pure (record {
      contact_id = info.contact_id;
      cycle_id = origin.cycle_id;
      employee_id = origin.employee_id;
      seq = origin.seq;
      source_key = source_key;
      target_key = target_key;
    })

  unfoldable pub lambda_handler : Value → Action W Reply
  lambda_handler event = do
    place ← lift (parse_event event)
    source_key ← lift (require_prefix lib.connect_recordings_prefix place.1)
    info ← lift (require_native (parse_connect_native_key lib.is_decimal (str source_key)))
    relocate place.0 source_key info
