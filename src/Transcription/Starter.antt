-- ===== src/Transcription/Starter.antt =====
-- backend/lambdas/transcribe_starter/handler.py: a recording is transcribed. The event is parsed as that
-- of the keyword matcher is. The log messages are left out.
pub mod Codes
pub mod Replies
use Prim.Native.String.{◌++◌}
use emergency_contact.Prelude.{
  ℕ, String, Bool, true, false, Option, none, some, List, [], ◌∷◌, if◌then◌else◌,
}
use emergency_contact.Python.Results.{Result, ok, err, Error, client_error, exhausted, value_error}
use emergency_contact.Python.Values.{Value, str, Fields, end, field, get, mem, eq_text}
use emergency_contact.Python.Actions.{Action, pure, lift, attempt, ◌>>=◌}
use emergency_contact.Aws.Tables.{Table, set_field, not_exists}
use emergency_contact.Aws.Retries.{retry}
use emergency_contact.Connect.Mock.{derive_mock_response}
use emergency_contact.Keyword.Event.{parse_event}
use emergency_contact.Recording.Parsing.{
  RecordingKeyInfo, Kind, outbound, inbound, parse_recording_key,
}
use emergency_contact.Recording.JobName.{derive_transcribe_job_name}
use emergency_contact.Transcription.Sample.{build_mock_transcript_json}

-- The calls of the handler. `start_transcription_job` has the name of the job, the URI of the media and
-- the key of the output, and `put_object` the value that is dumped as JSON.
pub record Services (W : Type 0) : Type 0 where
  pub start_transcription_job : String → String → String → Action W (Unit {0})
  pub put_object : String → Value → Action W (Unit {0})
  pub transcripts : Table W (String × String)
  pub responses : Table W (String × String)
  pub back_off : ℕ → Action W (Unit {0})

-- `str` of a value, the class `\d` of code points, and the first byte of a SHA-256 digest.
pub record Library : Type 0 where
  pub text_of : Value → String
  pub is_decimal : ℕ → Bool
  pub first_byte : String → ℕ

-- The status is "ok", "error" or "skipped".
pub data Reply : Type 0 where
  started : (job_name transcript_key : String) → Reply
  failed : (kind : Kind) → Reply
  skipped : (call_result_code : String) → Reply

abbrev pub max_transcribe_attempts : ℕ
max_transcribe_attempts = 3

abbrev pub retryable_error_codes : List String
retryable_error_codes = "ThrottlingException" ∷ "LimitExceededException" ∷ []

unfoldable pub is_retryable : Error → Bool
is_retryable (client_error code) = mem code retryable_error_codes
is_retryable _ = false

unfoldable pub is_conflict : Error → Bool
is_conflict (client_error code) = mem code ("ConflictException" ∷ [])
is_conflict _ = false

unfoldable pub is_exhausted : Error → Bool
is_exhausted exhausted = true
is_exhausted _ = false

unfoldable pub require_info : Option RecordingKeyInfo → Result RecordingKeyInfo
require_info none = err value_error
require_info (some info) = ok info

abbrev pub meta_key : RecordingKeyInfo → String × String
meta_key info = (info.meta_pk, info.meta_sk)

abbrev pub response_key : RecordingKeyInfo → String × String
response_key info = (info.meta_pk, info.employee_id)

unfoldable pub meta_item : RecordingKeyInfo → String → Fields
meta_item info job_name = field "cycleId" (str info.meta_pk) (
    field "employeeIdSeq" (str info.meta_sk) (
      field "transcribeJobId" (str job_name)
        (field "transcriptS3Key" (str info.transcript_s3_key) end)))

-- attribute_exists(callResultCode) AND callResultCode = "RECORDED"
unfoldable pub is_recorded : Option Fields → Bool
is_recorded none = false
is_recorded (some row) = eq_text (get "callResultCode" row) "RECORDED"

unfoldable pub fail_response : Fields → Fields
fail_response row = set_field "callResultCode" (str "TRANSCRIBE_FAILED") row

module _ {W : Type 0} (s : Services W) (lib : Library) where
  unfoldable pub media_uri : Value → Value → String
  media_uri bucket object_key = "s3://" ++ (lib.text_of bucket ++ ("/" ++ lib.text_of object_key))

  -- A job of the name that is there already is a success.
  unfoldable pub after_request : String → Result (Unit {0}) → Action W String
  after_request job_name (ok x) = pure job_name
  after_request job_name (err e) = if is_conflict e then pure job_name else lift (err e)

  unfoldable pub start_once : String → String → RecordingKeyInfo → Action W String
  start_once job_name uri info = do
    outcome ← attempt (s.start_transcription_job job_name uri info.transcript_s3_key)
    after_request job_name outcome

  unfoldable pub start_transcribe_job_with_retry :
      String → Value → Value → RecordingKeyInfo → Action W String
  start_transcribe_job_with_retry job_name bucket object_key info =
      retry is_retryable s.back_off max_transcribe_attempts
        (start_once job_name (media_uri bucket object_key) info)

  -- The answer is false where the row was written before.
  unfoldable pub record_transcript_meta : RecordingKeyInfo → String → Action W Bool
  record_transcript_meta info job_name =
      s.transcripts.put_item (meta_key info) (not_exists "cycleId") (meta_item info job_name)

  unfoldable pub record_transcribe_failed_on_response : RecordingKeyInfo → Action W Bool
  record_transcribe_failed_on_response info =
      s.responses.update_item (response_key info) is_recorded fail_response

  unfoldable pub record_started : RecordingKeyInfo → String → Action W Reply
  record_started info job_name = do
    recorded ← record_transcript_meta info job_name
    pure (started job_name info.transcript_s3_key)

  unfoldable pub put_mock_transcript : RecordingKeyInfo → Value → Action W (Unit {0})
  put_mock_transcript info payload = s.put_object info.transcript_s3_key payload

  unfoldable pub mock_answer : RecordingKeyInfo → String × Option String → Action W Reply
  mock_answer info (call_result_code, none) = pure (skipped call_result_code)
  mock_answer info (call_result_code, some transcript) = do
    job_name ← lift (derive_transcribe_job_name (str info.meta_pk) (str info.meta_sk))
    put ← put_mock_transcript info (build_mock_transcript_json job_name transcript)
    record_started info job_name

  unfoldable pub handle_mock_event : RecordingKeyInfo → Action W Reply
  handle_mock_event info = do
    answer ← lift (derive_mock_response lib.first_byte (str info.employee_id))
    mock_answer info answer

  -- The response of an incoming call is left to the handler of those.
  unfoldable pub fail_start : RecordingKeyInfo → Kind → Action W Reply
  fail_start info outbound = do
    recorded ← record_transcribe_failed_on_response info
    pure (failed outbound)
  fail_start info inbound = pure (failed inbound)

  unfoldable pub after_start : RecordingKeyInfo → String → Result String → Action W Reply
  after_start info job_name (ok name) = record_started info job_name
  after_start info job_name (err e) =
      if is_exhausted e then fail_start info info.kind else lift (err e)

  unfoldable pub start_real : Value → Value → RecordingKeyInfo → Action W Reply
  start_real bucket object_key info = do
    job_name ← lift (derive_transcribe_job_name (str info.meta_pk) (str info.meta_sk))
    outcome ← attempt (start_transcribe_job_with_retry job_name bucket object_key info)
    after_start info job_name outcome

  unfoldable pub lambda_handler : Bool → Value → Action W Reply
  lambda_handler mock event = do
    place ← lift (parse_event event)
    info ← lift (require_info (parse_recording_key lib.is_decimal place.1))
    if mock then handle_mock_event info else start_real place.0 place.1 info
