-- ===== src/Keyword/Handler.antt =====
-- backend/lambdas/keyword_matcher/handler.py: a transcript gives the voice status of a response. The log
-- messages are left out.
pub mod Rows
pub mod Stored
pub mod Others
use emergency_contact.Prelude.{
  ℕ, zero, suc, String, Bool, true, false, Option, none, some, List, [], ◌∷◌, ◌++◌, map,
  if◌then◌else◌,
}
use emergency_contact.Prelude.Int.{ℤ}
use emergency_contact.Python.Results.{Result, ok, err, Error, client_error, exhausted, value_error}
use emergency_contact.Python.Values.{Value, null, int, str, list, dict, Fields, get, from_list, mem}
use emergency_contact.Python.Actions.{Action, pure, lift, attempt, ◌>>=◌}
use emergency_contact.Python.Texts.{take_chars}
use emergency_contact.Aws.Tables.{Table, set_field, always}
use emergency_contact.Aws.Retries.{retry}
use emergency_contact.Recording.Parsing.{
  RecordingKeyInfo, Kind, outbound, inbound, parse_transcript_key,
}
use emergency_contact.Dictionary.Snapshot.{Snapshot, to_snapshot, as_dict}
use emergency_contact.Keyword.Matcher.{classify_voice_status}
use emergency_contact.Keyword.Transcript.{Floats, require_dict, extract_transcript_payload}
use emergency_contact.Keyword.Event.{parse_event}

-- The calls of the handler. `get_object` reads the body of an object, and `query_history` delivers the
-- pages of a version.
pub record Services (W : Type 0) : Type 0 where
  pub get_object : Value → Value → Action W String
  pub get_cycle : String → Action W (Option Fields)
  pub query_history : ℤ → Action W (List (List Fields))
  pub responses : Table W (String × String)
  pub transcripts : Table W (String × String)
  pub back_off : ℕ → Action W (Unit {0})

-- What the handler takes from Python: `json.loads`, `str` of a value, `int` of a text, `str.lower`, and
-- the class `\d` of code points.
pub record Library : Type 0 where
  pub loads : String → Option Value
  pub text_of : Value → String
  pub int_of_text : String → Option ℤ
  pub lower : String → String
  pub is_decimal : ℕ → Bool

-- The status is "ok" or "fallback".
pub data Reply (F : Type 0) : Type 0 where
  matched : RecordingKeyInfo → String → List String → ℤ → F → Reply F
  fallback : RecordingKeyInfo → Reply F

abbrev pub excerpt_max_chars : ℕ
excerpt_max_chars = 100

abbrev pub max_keyword_matcher_attempts : ℕ
max_keyword_matcher_attempts = 3

abbrev pub retryable_error_codes : List String
retryable_error_codes =
    "ThrottlingException" ∷ "ProvisionedThroughputExceededException" ∷ "RequestLimitExceeded"
    ∷ "InternalServerError" ∷ "ServiceUnavailable" ∷ "SlowDown" ∷ []

unfoldable pub is_retryable : Error → Bool
is_retryable (client_error code) = mem code retryable_error_codes
is_retryable _ = false

unfoldable pub is_exhausted : Error → Bool
is_exhausted exhausted = true
is_exhausted _ = false

unfoldable pub truncate_excerpt : String → String
truncate_excerpt text = take_chars excerpt_max_chars text

abbrev pub key_of : RecordingKeyInfo → String × String
key_of info = (info.meta_pk, info.employee_id)

abbrev pub keyword_list : List String → Value
keyword_list keywords = list (from_list (map str keywords))

-- SET voiceStatus, matchedKeywords, transcriptExcerpt, dictionaryVersion
unfoldable pub classify_row : String → List String → String → ℤ → Fields → Fields
classify_row voice_status keywords excerpt version row =
    set_field "dictionaryVersion" (int version) (
      set_field "transcriptExcerpt" (str excerpt) (
        set_field "matchedKeywords" (keyword_list keywords)
          (set_field "voiceStatus" (str voice_status) row)))

-- SET voiceStatus, matchedKeywords
unfoldable pub other_row : Fields → Fields
other_row row =
    set_field "matchedKeywords" (keyword_list []) (set_field "voiceStatus" (str "OTHER") row)

-- SET transcriptExcerpt, confidence, languageCode
unfoldable pub meta_row : String → Value → Fields → Fields
meta_row excerpt confidence row =
    set_field "languageCode" (str "ja-JP")
      (set_field "confidence" confidence (set_field "transcriptExcerpt" (str excerpt) row))

unfoldable pub require_loaded : Option Value → Result Fields
require_loaded none = err value_error
require_loaded (some v) = require_dict v

unfoldable pub require_version : Option ℤ → Result ℤ
require_version none = err value_error
require_version (some n) = ok n

abbrev pub rows_of : List (List Fields) → List Fields
rows_of [] = []
rows_of (page ∷ pages) = page ++ rows_of pages

unfoldable pub require_outbound : Option RecordingKeyInfo → Result RecordingKeyInfo
require_outbound none = err value_error
require_outbound (some info) = elim info.kind [ outbound ↦ ok info | inbound ↦ err value_error ]

module _ {W F : Type 0} (s : Services W) (lib : Library) (fl : Floats F) where
  unfoldable pub read_transcript_body : Value → Value → Action W Fields
  read_transcript_body bucket key = do
    raw ← s.get_object bucket key
    lift (require_loaded (lib.loads raw))

  -- The version of a row, as `int(str(raw))`.
  unfoldable pub version_of : Option Fields → Result ℤ
  version_of none = err value_error
  version_of (some item) = elim (get "dictionaryVersion" item) [
    | null ↦ err value_error
    | raw ↦ require_version (lib.int_of_text (lib.text_of raw))
  ]

  unfoldable pub resolve_dictionary_version : String → Action W ℤ
  resolve_dictionary_version cycle_id = do item ← s.get_cycle cycle_id; lift (version_of item)

  unfoldable pub get_dictionary_snapshot : ℤ → Action W Snapshot
  get_dictionary_snapshot version = do
    pages ← s.query_history version
    pure (to_snapshot (rows_of pages))

  unfoldable pub record_response :
      RecordingKeyInfo → String → List String → String → ℤ → Action W Bool
  record_response info voice_status keywords excerpt version =
      s.responses.update_item (key_of info) always
        (classify_row voice_status keywords excerpt version)

  unfoldable pub record_transcript_meta : RecordingKeyInfo → String → F → Action W Bool
  record_transcript_meta info excerpt confidence =
      s.transcripts.update_item (info.meta_pk, info.meta_sk) always
        (meta_row excerpt (fl.to_decimal confidence))

  unfoldable pub run_matching_pipeline : Value → Value → RecordingKeyInfo → Action W (Reply F)
  run_matching_pipeline bucket key info = do
    body ← read_transcript_body bucket key
    payload ← lift (extract_transcript_payload fl (dict body))
    version ← resolve_dictionary_version info.meta_pk
    dictionary ← get_dictionary_snapshot version
    verdict ← lift (classify_voice_status lib.lower (str payload.0) (dict (as_dict dictionary)))
    recorded ← record_response info verdict.0 verdict.1 (truncate_excerpt payload.0) version
    noted ← record_transcript_meta info (truncate_excerpt payload.0) payload.1
    pure (matched info verdict.0 verdict.1 version payload.1)

  unfoldable pub run_with_retry : Value → Value → RecordingKeyInfo → Action W (Reply F)
  run_with_retry bucket key info =
      retry is_retryable s.back_off max_keyword_matcher_attempts
        (run_matching_pipeline bucket key info)

  unfoldable pub record_other_fallback : RecordingKeyInfo → Action W Bool
  record_other_fallback info = s.responses.update_item (key_of info) always other_row

  -- except _KeywordMatcherExhaustedError
  unfoldable pub after_run : RecordingKeyInfo → Result (Reply F) → Action W (Reply F)
  after_run info (ok reply) = pure reply
  after_run info (err e) =
      if is_exhausted e
      then (do recorded ← record_other_fallback info; pure (fallback info))
      else lift (err e)

  unfoldable pub match_parsed : Value × Value → Action W (Reply F)
  match_parsed (bucket, key) = do
    info ← lift (require_outbound (parse_transcript_key lib.is_decimal key))
    outcome ← attempt (run_with_retry bucket key info)
    after_run info outcome

  unfoldable pub lambda_handler : Value → Action W (Reply F)
  lambda_handler event = do place ← lift (parse_event event); match_parsed place
