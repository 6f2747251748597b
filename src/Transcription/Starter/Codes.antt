-- ===== src/Transcription/Starter/Codes.antt =====
-- The result codes of the responses over a start of a transcription.
use emergency_contact.Prelude.{
  ℕ, String, ◌≡◌, ap, ◌⊎◌, inl, inr, Bool, true, Option, none, some, eq_iff,
}
use emergency_contact.Python.Results.{Result, ok, err}
use emergency_contact.Python.Values.{Value, str, Fields, get, lookup, eq_text}
use emergency_contact.Python.Actions.{
  Action, pure, lift, ◌>>=◌, Keeps, >>=-Keeps, pure-Keeps, lift-Keeps, if-Keeps, attempt-Keeps,
}
use emergency_contact.Aws.Rows.{Rows, Writes, Elsewhere, lookup-set_field_same}
use emergency_contact.Aws.Preserved.{
  Preserved, Preserved-IsPreorder, Elsewhere-Preserved, Writes-Preserved,
}
use emergency_contact.Aws.Retries.{retry-Keeps}
use emergency_contact.Keyword.Event.{parse_event}
use emergency_contact.Recording.Parsing.{RecordingKeyInfo, Kind, outbound, inbound}
use emergency_contact.Transcription.Starter.{
  Services, Library, is_retryable, is_recorded, fail_response, after_request, start_once,
  start_transcribe_job_with_retry, record_transcript_meta, record_transcribe_failed_on_response,
  record_started, put_mock_transcript, mock_answer, handle_mock_event, fail_start, after_start,
  start_real, lambda_handler,
}

-- The effect of the services on the table of the responses.
pub record Documented {W : Type 0} (t : Rows W (String × String)) (s : Services W) : Type 0 where
  pub updates :
      (k : String × String) (test : Option Fields → Bool) (change : Fields → Fields)
      → Writes t k test change (s.responses.update_item k test change)
  pub start_elsewhere : (job uri key : String) → Elsewhere t (s.start_transcription_job job uri key)
  pub object_elsewhere : (key : String) (body : Value) → Elsewhere t (s.put_object key body)
  pub put_elsewhere :
      (k : String × String) (test : Option Fields → Bool) (row : Fields)
      → Elsewhere t (s.transcripts.put_item k test row)
  pub sleep_elsewhere : (i : ℕ) → Elsewhere t (s.back_off i)

-- The result code is the one that it was, or RECORDED has become TRANSCRIBE_FAILED.
abbrev pub CodeAfter : Value → Fields → Type 0
CodeAfter v row =
    (lookup "callResultCode" row ≡ some v)
    ⊎ ((v ≡ str "RECORDED") × (lookup "callResultCode" row ≡ some (str "TRANSCRIBE_FAILED")))

text_of_eq : (v : Value) (t : String) → eq_text v t ≡ true → v ≡ str t
unfolding eq_text
text_of_eq (str s) t h = ap str ((eq_iff s t).0 h)
text_of_eq _ t h = cc

fail-CodeAfter :
    (v : Value) (row : Fields)
    → is_recorded (some row) ≡ true
    → CodeAfter v row
    → CodeAfter v (fail_response row)
unfolding is_recorded fail_response get
fail-CodeAfter v row passed (inl e) =
    let is : v ≡ str "RECORDED" = text_of_eq v "RECORDED" (rw e at passed) in
    inr (is, lookup-set_field_same "callResultCode" (str "TRANSCRIBE_FAILED") row)
fail-CodeAfter v row passed (inr (is, e)) =
    inr (is, lookup-set_field_same "callResultCode" (str "TRANSCRIBE_FAILED") row)

module _ {W : Type 0} (t : Rows W (String × String)) (s : Services W) (d : Documented t s)
    (lib : Library) (v : Value) where
  abbrev pub Kept : W → W → Type 0
  Kept = Preserved t (CodeAfter v)

  keep :
      {A B : Type 0} (m : Action W A) (f : A → Action W B)
      → Keeps Kept m
      → ((a : A) → Keeps Kept (f a))
      → Keeps Kept (m >>= f)
  keep = >>=-Keeps (Preserved-IsPreorder t (CodeAfter v))

  keep_pure : {A : Type 0} (a : A) → Keeps Kept (pure a)
  keep_pure = pure-Keeps (Preserved-IsPreorder t (CodeAfter v))

  keep_lift : {A : Type 0} (r : Result A) → Keeps Kept (lift r)
  keep_lift = lift-Keeps (Preserved-IsPreorder t (CodeAfter v))

  leave : {A : Type 0} (m : Action W A) → Elsewhere t m → Keeps Kept m
  leave = Elsewhere-Preserved t (CodeAfter v)

  record_started-Keeps :
      (info : RecordingKeyInfo) (job : String) → Keeps Kept (record_started s lib info job)
  unfolding record_started record_transcript_meta
  record_started-Keeps info job =
      keep _ _ (leave _ (d.put_elsewhere _ _ _)) (λ recorded. keep_pure _)

  after_request-Keeps :
      (job : String) (o : Result (Unit {0})) → Keeps Kept (after_request s lib job o)
  unfolding after_request
  after_request-Keeps job (ok x) = keep_pure _
  after_request-Keeps job (err e) = if-Keeps _ _ _ (keep_pure _) (keep_lift _)

  start-Keeps :
      (job : String) (bucket key : Value) (info : RecordingKeyInfo)
      → Keeps Kept (start_transcribe_job_with_retry s lib job bucket key info)
  unfolding start_transcribe_job_with_retry start_once
  start-Keeps job bucket key info =
      retry-Keeps is_retryable s.back_off _ (Preserved-IsPreorder t (CodeAfter v))
        (λ i. leave _ (d.sleep_elsewhere i)) _
        (keep _ _ (attempt-Keeps _ (leave _ (d.start_elsewhere _ _ _))) (after_request-Keeps job))

  fail-Keeps : (info : RecordingKeyInfo) (kind : Kind) → Keeps Kept (fail_start s lib info kind)
  unfolding fail_start record_transcribe_failed_on_response
  fail-Keeps info outbound =
      keep _ _
        (Writes-Preserved t (CodeAfter v) _ is_recorded _ _ (d.updates _ _ _) (fail-CodeAfter v))
        (λ recorded. keep_pure _)
  fail-Keeps info inbound = keep_pure _

  after_start-Keeps :
      (info : RecordingKeyInfo) (job : String) (o : Result String)
      → Keeps Kept (after_start s lib info job o)
  unfolding after_start
  after_start-Keeps info job (ok name) = record_started-Keeps info job
  after_start-Keeps info job (err e) = if-Keeps _ _ _ (fail-Keeps info info.kind) (keep_lift _)

  mock_answer-Keeps :
      (info : RecordingKeyInfo) (answer : String × Option String)
      → Keeps Kept (mock_answer s lib info answer)
  unfolding mock_answer put_mock_transcript
  mock_answer-Keeps info (code, none) = keep_pure _
  mock_answer-Keeps info (code, some text) =
      keep _ _ (keep_lift _)
        (λ job. keep _ _ (leave _ (d.object_elsewhere _ _)) (λ put. record_started-Keeps info job))

  -- A start of a transcription, in either mode, changes no result code of a response but from RECORDED
  -- to TRANSCRIBE_FAILED, for every event and also where the run raises.
  pub lambda_handler-CodeAfter :
      (mock : Bool) (event : Value) (w : W)
      → Preserved t (CodeAfter v) w (lambda_handler s lib mock event w).1
  unfolding lambda_handler handle_mock_event start_real
  lambda_handler-CodeAfter mock event w =
      (keep _ _ (keep_lift (parse_event event)) (λ place. keep _ _ (keep_lift _) (λ info.
          if-Keeps mock _ _ (keep _ _ (keep_lift _) (mock_answer-Keeps info)) (
            keep _ _ (keep_lift _) (λ job.
              keep _ _ (attempt-Keeps _ (start-Keeps job place.0 place.1 info))
                (after_start-Keeps info job)))))).run
        w
