-- ===== src/Examples/Recordings.antt =====
-- The start of a transcription, over a table in memory.
use emergency_contact.Prelude.{
  arith, ℕ, String, ◌≡◌, ◌≤◌, ◌+◌, ◌*◌, refl, inl, false, ◌&&◌, none, some, leb,
}
use emergency_contact.Prelude.Int.{pos}
use emergency_contact.Python.Results.{ok, err, value_error, client_error}
use emergency_contact.Python.Floats.{
  true_div, rounded, scale_of, unit_of, round_half_even, require_finite, is_finite,
}
use emergency_contact.Python.Values.{Value, int, str, dict, Fields, end, field, get, is_truthy}
use emergency_contact.Python.Actions.{◌>>=◌, continue, lift, pure, attempt}
use emergency_contact.Aws.Tables.{Table, not_exists}
use emergency_contact.Aws.Rows.{Rows}
use emergency_contact.Aws.Retries.{retry, retry_from, after_try, pause}
use emergency_contact.Aws.Preserved.{Preserved}
use emergency_contact.Keyword.Event.{parse_event}
use emergency_contact.Keyword.Transcript.{Floats, extract_transcript_payload, require_dict}
use emergency_contact.Recording.Parsing as Parsing
use emergency_contact.Recording.JobName as JobName
use emergency_contact.Recording.Metadata as Metadata
use emergency_contact.Recording.Metadata.Written as Written
use emergency_contact.Recording.Metadata.Written.{IsRow, written_once, estimate-bounds}
use emergency_contact.Transcription.Sample.{build_mock_transcript_json, sample-read}
use emergency_contact.Transcription.Starter as Starter
use emergency_contact.Transcription.Starter.{Services, Library, started, lambda_handler}
use emergency_contact.Transcription.Starter.Codes as Codes
use emergency_contact.Transcription.Starter.Codes.{CodeAfter, lambda_handler-CodeAfter}
use emergency_contact.Transcription.Starter.Replies as Replies
use emergency_contact.Transcription.Starter.Replies.{Says, lambda_handler-Says}
use emergency_contact.Examples.Memory.{
  same_pair, same_pair_eq, Memory, memory_table, memory_rows, update-Writes,
}

-- A mean of natural numbers stands in for that of floats.
abbrev whole : Floats ℕ
whole = record {
  float = λ v. ok 1;
  is_unit = λ n. leb n 1;
  mean = λ ns. 1;
  zero_float = 0;
  to_decimal = λ n. int (pos n);
}

sample-read_example :
    extract_transcript_payload whole (build_mock_transcript_json "job" "無事です") ≡ ok ("無事です", 1)
sample-read_example = sample-read whole 1 "job" "無事です" refl refl

abbrev no_key : String × String → Fields
no_key k = end

abbrev World : Type 0
World = Memory same_pair no_key

abbrev table_rows : Rows World (String × String)
table_rows = memory_rows same_pair no_key

-- A table whose calls fail.
abbrev down : Table World (String × String)
down = record {
  get_item = λ k w. (err value_error, w);
  put_item = λ k test row w. (err value_error, w);
  update_item = λ k test change w. (err value_error, w);
}

-- The responses are in memory, and the requests fail.
abbrev limited : Services World
limited = record {
  start_transcription_job = λ job uri key w. (err (client_error "LimitExceededException"), w);
  put_object = λ key body w. (ok tt, w);
  transcripts = down;
  responses = memory_table same_pair no_key;
  back_off = λ i w. (ok tt, w);
}

limited-Documented : Codes.Documented table_rows limited
limited-Documented = record {
  updates = update-Writes same_pair no_key same_pair_eq;
  start_elsewhere = λ job uri key w j. refl;
  object_elsewhere = λ key body w j. refl;
  put_elsewhere = λ k test row w j. refl;
  sleep_elsewhere = λ i w j. refl;
}

abbrev lib : Library
lib = record { text_of = λ v. "text"; is_decimal = λ c. leb 48 c && leb c 57; first_byte = λ s. 0 }

abbrev created : Value
created = dict (
    field "detail"
      (dict (
        field "bucket" (dict (field "name" (str "recordings") end))
          (field "object" (dict (field "key" (str "recordings/C1/E1/1.wav") end)) end)))
      end)

abbrev recorded : World
recorded = ((λ k. some (field "callResultCode" (str "RECORDED") end)), 0)

lambda_handler-CodeAfter_example :
    Preserved table_rows
      (CodeAfter (str "RECORDED"))
      recorded
      (lambda_handler limited lib false created recorded).1
lambda_handler-CodeAfter_example =
    lambda_handler-CodeAfter table_rows limited limited-Documented lib (str "RECORDED") false
      created recorded

-- The metadata are in memory, and the jobs start.
abbrev ready : Services World
ready = record {
  start_transcription_job = λ job uri key w. (ok tt, w);
  put_object = λ key body w. (ok tt, w);
  transcripts = memory_table same_pair no_key;
  responses = down;
  back_off = λ i w. (ok tt, w);
}

ready-Documented : Replies.Documented table_rows table_rows ready
ready-Documented = record {
  updates = λ k test change. record {
    changed = λ w j. inl refl;
    written = λ w h. cc;
    refused = λ w h. cc;
  };
  puts = λ k test row. update-Writes same_pair no_key same_pair_eq k test (λ old. row);
}

abbrev empty : World
empty = ((λ k. none), 0)

starts :
    (lambda_handler ready lib false created empty).0
    ≡ ok (started "safety-confirm-C1-E1-1" "transcripts/C1/E1/1.json")
unfolding lambda_handler ◌>>=◌ lift parse_event require_dict get is_truthy Starter.require_info
    Parsing.parse_recording_key Parsing.recording_info Parsing.match_outbound
    Parsing.outbound_groups Parsing.split_slash Parsing.seq_group Parsing.before_end Parsing.or_else
    Parsing.before Parsing.is_number after_try pause retry retry_from not_exists attempt continue
    pure JobName.derive_transcribe_job_name JobName.is_forbidden JobName.require_given
    JobName.sanitize JobName.shorten Parsing.all_digits Parsing.cons_head Parsing.count
    Parsing.outbound_transcript Parsing.prepend Starter.after_request Starter.after_start
    Starter.media_uri Starter.meta_item Starter.record_started Starter.record_transcript_meta
    Starter.start_once Starter.start_real Starter.start_transcribe_job_with_retry
starts = refl

lambda_handler-Says_example :
    Says table_rows table_rows ready ready-Documented lib created
      (started "safety-confirm-C1-E1-1" "transcripts/C1/E1/1.json")
      (lambda_handler ready lib false created empty).1
lambda_handler-Says_example =
    lambda_handler-Says table_rows table_rows ready ready-Documented lib false created empty
      (started "safety-confirm-C1-E1-1" "transcripts/C1/E1/1.json") starts

-- The writer of the metadata, over the same memory.
abbrev writer : Metadata.Services World
writer = record {
  utc_now_iso = λ w. (ok "2026-01-01T00:00:00Z", w);
  recordings = memory_table same_pair no_key;
  back_off = λ i w. (ok tt, w);
}

writer-Documented : Written.Documented table_rows writer
writer-Documented = record {
  puts = λ k test row. update-Writes same_pair no_key same_pair_eq k test (λ old. row);
  now_elsewhere = λ w j. refl;
  sleep_elsewhere = λ i w j. refl;
}

abbrev writer_lib : Metadata.Library
writer_lib = record { int_of_text = λ s. none; is_decimal = λ c. leb 48 c && leb c 57 }

abbrev old_row : Fields
old_row = field "cycleId" (str "C1") (field "recordedAt" (str "2025-12-31T00:00:00Z") end)

abbrev written_before : World
written_before = ((λ k. some old_row), 0)

written_once_example :
    Preserved table_rows
      (IsRow (str "C1") old_row)
      written_before
      (Metadata.lambda_handler writer writer_lib created written_before).1
written_once_example =
    written_once table_rows writer writer-Documented writer_lib (str "C1") old_row created
      written_before

-- Beyond that size the float is not near enough.
far_estimate :
    Metadata.estimate_duration_seconds 18014398509480001 Metadata.default_bitrate_kbps
    ≡ ok 1125899906842
unfolding Metadata.estimate_duration_seconds Metadata.rounded_quotient true_div rounded scale_of
    unit_of round_half_even require_finite is_finite
far_estimate = refl

estimate-bounds_example :
    (e : ℕ) × (Metadata.estimate_duration_seconds 80000 Metadata.default_bitrate_kbps ≡ ok e)
    × (80000 ≤ 16000 * e + 8000)
    × (16000 * e ≤ 80000 + 8000)
estimate-bounds_example = estimate-bounds 80000 (omega arith)
