-- ===== src/Transcription/Sample.antt =====
-- `_build_mock_transcript_json` of backend/lambdas/transcribe_starter/handler.py: the transcript that
-- stands in for the one of Amazon Transcribe, and how the keyword matcher reads it.
use emergency_contact.Prelude.{String, ◌≡◌, true, [], ◌∷◌}
use emergency_contact.Python.Results.{ok}
use emergency_contact.Python.Values.{
  Value, str, list, dict, nil, cons, Fields, end, field, get, eq_text,
}
use emergency_contact.Keyword.Transcript.{
  Floats, extract_transcript_payload, require_dict, require_text, require_first, average,
  iter_pronunciation_confidences, add_item, add_alternative, add_confidence, add_float,
  mean_or_zero,
}

abbrev pub alternative : String → Fields
alternative text = field "confidence" (str "1.0") (field "content" (str text) end)

abbrev pub token : String → Fields
token text = field "start_time" (str "0.0") (
    field "end_time" (str "1.0") (
      field "alternatives" (list (cons (dict (alternative text)) nil))
        (field "type" (str "pronunciation") end)))

unfoldable pub build_mock_transcript_json : String → String → Value
build_mock_transcript_json job_name text = dict (
    field "jobName" (str job_name) (
      field "status" (str "COMPLETED") (
        field "results"
          (dict (
            field "transcripts" (list (cons (dict (field "transcript" (str text) end)) nil))
              (field "items" (list (cons (dict (token text)) nil)) end)))
          end)))

-- The keyword matcher reads the transcript of the mock as its text, and as its confidence the mean of
-- the one that it has, for every text and job. Assumed of the floats is that "1.0" is read as one, and
-- that it lies in the unit interval.
pub sample-read :
    {F : Type 0} (fl : Floats F) (one : F) (job_name text : String)
    → fl.float (str "1.0") ≡ ok one
    → fl.is_unit one ≡ true
    → extract_transcript_payload fl (build_mock_transcript_json job_name text)
      ≡ ok (text, fl.mean (one ∷ []))
unfolding build_mock_transcript_json extract_transcript_payload require_dict require_text
    require_first average iter_pronunciation_confidences add_item add_alternative add_confidence
    add_float mean_or_zero get eq_text
sample-read fl one job_name text reads unit = rw (reads, unit)
