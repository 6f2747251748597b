-- ===== src/Recording/Metadata.antt =====
-- backend/lambdas/recording_metadata_writer/handler.py: the row of a recording. The log messages are left
-- out.
pub mod Written
use emergency_contact.Prelude.{
  ℕ, zero, suc, ◌+◌, ◌*◌, ◌/◌, ◌%◌, String, Bool, true, false, Option, none, some, List, [], ◌∷◌,
  ltb, ◌==◌, ◌||◌, if◌then◌else◌,
}
use emergency_contact.Prelude.Int.{ℤ, pos, negsuc}
use emergency_contact.Python.Results.{Result, ok, err, Error, client_error, value_error}
use emergency_contact.Python.Values.{
  Value, int, str, dict, Fields, end, field, get, get_or, lookup, mem,
}
use emergency_contact.Python.Actions.{Action, pure, lift, ◌>>=◌}
use emergency_contact.Python.Floats.{Float, true_div, rounded}
use emergency_contact.Aws.Tables.{Table, set_field, not_exists}
use emergency_contact.Aws.Retries.{retry}
use emergency_contact.Calls.Ending.Event.{to_int}
use emergency_contact.Keyword.Event.{parse_event}
use emergency_contact.Recording.Parsing.{
  RecordingKeyInfo, Kind, outbound, inbound, parse_recording_key,
}

-- The calls of the handler.
pub record Services (W : Type 0) : Type 0 where
  pub utc_now_iso : Action W String
  pub recordings : Table W (String × String)
  pub back_off : ℕ → Action W (Unit {0})

-- `int` of a text, and the class `\d` of code points.
pub record Library : Type 0 where
  pub int_of_text : String → Option ℤ
  pub is_decimal : ℕ → Bool

-- The status is "ok".
pub record Reply : Type 0 where
  pub meta_pk : String
  pub meta_sk : String
  pub kind : Kind

abbrev pub max_ddb_attempts : ℕ
max_ddb_attempts = 3

abbrev pub retryable_ddb_error_codes : List String
retryable_ddb_error_codes = "ThrottlingException" ∷ "ProvisionedThroughputExceededException" ∷ []

abbrev pub default_bitrate_kbps : ℕ
default_bitrate_kbps = 128

unfoldable pub is_retryable : Error → Bool
is_retryable (client_error code) = mem code retryable_ddb_error_codes
is_retryable _ = false

-- round(q), of a quotient that may be too large for a float
unfoldable pub rounded_quotient : Result Float → Result ℕ
rounded_quotient (ok x) = ok (rounded x)
rounded_quotient (err e) = err e

unfoldable pub estimate_duration_seconds : ℕ → ℕ → Result ℕ
estimate_duration_seconds file_size_bytes bitrate_kbps =
    if file_size_bytes == 0 || bitrate_kbps == 0
    then ok 0
    else rounded_quotient (true_div (file_size_bytes * 8) (bitrate_kbps * 1000))

-- A size that is no number, or below zero, is 0.
unfoldable pub size_or_zero : Result ℤ → ℕ
size_or_zero (ok (pos n)) = n
size_or_zero (ok (negsuc n)) = 0
size_or_zero (err e) = 0

unfoldable pub kind_name : Kind → String
kind_name outbound = "outbound"
kind_name inbound = "inbound"

unfoldable pub with_contact : Kind → String → Fields → Fields
with_contact outbound contact_id item = item
with_contact inbound contact_id item = set_field "contactId" (str contact_id) item

unfoldable pub with_duration :
    RecordingKeyInfo → Value → Value → ℕ → String → Result ℕ → Result Fields
with_duration info bucket object_key file_size_bytes recorded_at (err e) = err e
with_duration info bucket object_key file_size_bytes recorded_at (ok duration) = ok (
    with_contact info.kind info.seq_or_contact (
      field "cycleId" (str info.meta_pk) (
        field "employeeIdSeq" (str info.meta_sk) (
          field "employeeId" (str info.employee_id) (
            field "s3Bucket" bucket (
              field "s3ObjectKey" object_key (
                field "recordedAt" (str recorded_at) (
                  field "fileSizeBytes" (int (pos file_size_bytes)) (
                    field "durationSeconds" (int (pos duration))
                      (field "kind" (str (kind_name info.kind)) end))))))))))

unfoldable pub build_recording_meta_item :
    RecordingKeyInfo → Value → Value → ℕ → String → Result Fields
build_recording_meta_item info bucket object_key file_size_bytes recorded_at =
    with_duration info bucket object_key file_size_bytes recorded_at
      (estimate_duration_seconds file_size_bytes default_bitrate_kbps)

unfoldable pub require_info : Option RecordingKeyInfo → Result RecordingKeyInfo
require_info none = err value_error
require_info (some info) = ok info

-- d[k], a dict or none
unfoldable pub dict_at : String → Value → Fields
dict_at k (dict d) = elim (get k d) [ dict e ↦ e | _ ↦ end ]
dict_at k _ = end

module _ {W : Type 0} (s : Services W) (lib : Library) where
  -- object_block.get("size", 0), of an event that was parsed
  unfoldable pub size_of : Value → ℕ
  size_of event = size_or_zero (
      to_int lib.int_of_text
        (get_or (lookup "size" (dict_at "object" (dict (dict_at "detail" event)))) (int (pos 0))))

  unfoldable pub write_once : RecordingKeyInfo → Fields → Action W Bool
  write_once info item =
      s.recordings.put_item (info.meta_pk, info.meta_sk) (not_exists "cycleId") item

  unfoldable pub write_metadata_with_retry : RecordingKeyInfo → Fields → Action W Bool
  write_metadata_with_retry info item =
      retry is_retryable s.back_off max_ddb_attempts (write_once info item)

  unfoldable pub write_recording : Value → Value × Value → RecordingKeyInfo → Action W Reply
  write_recording event place info = do
    now ← s.utc_now_iso
    item ← lift (build_recording_meta_item info place.0 place.1 (size_of event) now)
    written ← write_metadata_with_retry info item
    pure (record { meta_pk = info.meta_pk; meta_sk = info.meta_sk; kind = info.kind })

  unfoldable pub lambda_handler : Value → Action W Reply
  lambda_handler event = do
    place ← lift (parse_event event)
    info ← lift (require_info (parse_recording_key lib.is_decimal place.1))
    write_recording event place info
