-- ===== src/Transcription/Starter/Replies.antt =====
-- What the tables hold after the reply of a start.
use emergency_contact.Prelude.{
  String, ◌≡◌, refl, sym, ap, subst, ◌∙◌, Bool, true, false, Option, none, some, if◌then◌else◌,
}
use emergency_contact.Python.Results.{Result, ok, err, ok_injective}
use emergency_contact.Python.Values.{Value, str, Fields, get, eq_text}
use emergency_contact.Python.Actions.{
  pure, Returns, >>=-Returns, lift->>=-Returns, if-Returns, lift_err-Returns, >>=-pure,
}
use emergency_contact.Aws.Rows.{Rows, Writes, HasField, Writes-HasField, lookup-set_field_same}
use emergency_contact.Connect.Mock.{derive_mock_response}
use emergency_contact.Keyword.Event.{parse_event}
use emergency_contact.Recording.Parsing.{
  RecordingKeyInfo, Kind, outbound, inbound, parse_recording_key,
}
use emergency_contact.Recording.JobName.{derive_transcribe_job_name}
use emergency_contact.Transcription.Starter.{
  Services, Library, Reply, started, failed, skipped, require_info, meta_key, response_key,
  meta_item, is_recorded, fail_response, record_transcript_meta,
  record_transcribe_failed_on_response, record_started, mock_answer, handle_mock_event, fail_start,
  after_start, start_real, lambda_handler,
}

-- The documented effect on the table of the responses and on that of the transcripts.
pub record Documented {W : Type 0} (r m : Rows W (String × String)) (s : Services W) : Type 0 where
  pub updates :
      (k : String × String) (test : Option Fields → Bool) (change : Fields → Fields)
      → Writes r k test change (s.responses.update_item k test change)
  pub puts :
      (k : String × String) (test : Option Fields → Bool) (row : Fields)
      → Writes m k test (λ old. row) (s.transcripts.put_item k test row)

module _ {W : Type 0} (r m : Rows W (String × String)) (s : Services W) (d : Documented r m s)
    (lib : Library) where
  -- What a reply says of a recording.
  abbrev pub Settled : RecordingKeyInfo → Reply → W → Type 0
  Settled info (started job key) w =
      (derive_transcribe_job_name (str info.meta_pk) (str info.meta_sk) ≡ ok job)
      × (key ≡ info.transcript_s3_key)
      × ((v : Value) × HasField "cycleId" v (m.row_at w (meta_key info)))
  Settled info (failed outbound) w = is_recorded (r.row_at w (response_key info)) ≡ false
  Settled info (failed inbound) w = info.kind ≡ inbound
  Settled info (skipped code) w =
      derive_mock_response lib.first_byte (str info.employee_id) ≡ ok (code, none)

  abbrev pub Says : Value → Reply → W → Type 0
  Says event reply w =
      (place : Value × Value) × (info : RecordingKeyInfo) × (parse_event event ≡ ok place)
      × (require_info (parse_recording_key lib.is_decimal place.1) ≡ ok info)
      × Settled info reply w

  pure-Returns : {A : Type 0} (P : A → W → Type 0) (a : A) → ((w : W) → P a w) → Returns P (pure a)
  unfolding pure
  pure-Returns P a h = record { holds = λ w b e. subst (λ x. P x w) (ok_injective e) (h w) }

  record_started-Settled :
      (info : RecordingKeyInfo) (job : String)
      → derive_transcribe_job_name (str info.meta_pk) (str info.meta_sk) ≡ ok job
      → Returns (Settled info) (record_started s lib info job)
  unfolding record_started record_transcript_meta meta_item
  record_started-Settled info job e = record {
    holds = λ w x h.
        let (b, answered, ran, is) = >>=-pure (record_transcript_meta s lib info job) _ _ w h in
        let there =
          Writes-HasField m "cycleId" (meta_key info) _ _ (d.puts (meta_key info) _ _)
            (str info.meta_pk) (λ row. refl) w b answered in
        subst (λ o. Settled info x o.1) (sym ran)
          (subst (λ y. Settled info y (record_transcript_meta s lib info job w).1) is
            (e, refl, there));
  }

  failed_not_recorded : (row : Fields) → is_recorded (some (fail_response row)) ≡ false
  unfolding is_recorded fail_response get eq_text
  failed_not_recorded row =
      rw (lookup-set_field_same "callResultCode" (str "TRANSCRIBE_FAILED") row)

  not_recorded :
      (k : String × String) (w : W) (b : Bool)
      → (s.responses.update_item k is_recorded fail_response w).0 ≡ ok b
      → is_recorded (r.row_at (s.responses.update_item k is_recorded fail_response w).1 k) ≡ false
  not_recorded k w true h =
      ap is_recorded ((d.updates k is_recorded fail_response).written w h) ∙ failed_not_recorded _
  not_recorded k w false h =
      let no = (d.updates k is_recorded fail_response).refused w h in ap is_recorded no.1 ∙ no.0

  fail-Settled :
      (info : RecordingKeyInfo) (kind : Kind)
      → info.kind ≡ kind
      → Returns (Settled info) (fail_start s lib info kind)
  unfolding fail_start record_transcribe_failed_on_response
  fail-Settled info outbound e = record {
    holds = λ w x h.
        let (b, answered, ran, is) =
          >>=-pure (record_transcribe_failed_on_response s lib info) _ _ w h in
        subst (λ o. Settled info x o.1) (sym ran)
          (subst (λ y. Settled info y (record_transcribe_failed_on_response s lib info w).1) is
            (not_recorded (response_key info) w b answered));
  }
  fail-Settled info inbound e = pure-Returns (Settled info) _ (λ w. e)

  after_start-Settled :
      (info : RecordingKeyInfo) (job : String) (o : Result String)
      → derive_transcribe_job_name (str info.meta_pk) (str info.meta_sk) ≡ ok job
      → Returns (Settled info) (after_start s lib info job o)
  unfolding after_start
  after_start-Settled info job (ok name) e = record_started-Settled info job e
  after_start-Settled info job (err x) e =
      if-Returns (Settled info) _ _ _ (fail-Settled info info.kind refl)
        (lift_err-Returns (Settled info) x)

  mock-Settled :
      (info : RecordingKeyInfo) (answer : String × Option String)
      → derive_mock_response lib.first_byte (str info.employee_id) ≡ ok answer
      → Returns (Settled info) (mock_answer s lib info answer)
  unfolding mock_answer
  mock-Settled info (code, none) e = pure-Returns (Settled info) _ (λ w. e)
  mock-Settled info (code, some text) e =
      lift->>=-Returns (Settled info) _ _
        (λ job named. >>=-Returns (Settled info) _ _ (λ put. record_started-Settled info job named))

  run-Settled :
      (mock : Bool) (bucket key : Value) (info : RecordingKeyInfo)
      → Returns
          (Settled info)
          (if mock then handle_mock_event s lib info else start_real s lib bucket key info)
  unfolding handle_mock_event start_real
  run-Settled true bucket key info =
      lift->>=-Returns (Settled info) _ _ (λ answer e. mock-Settled info answer e)
  run-Settled false bucket key info =
      lift->>=-Returns (Settled info) _ _
        (λ job named. >>=-Returns (Settled info) _ _ (λ o. after_start-Settled info job o named))

  -- Where a start of a transcription returns, its event names a recording, and the tables are as the
  -- reply says: after "ok" the name of the job is the one of the recording, and the metadata of the
  -- transcript have their row; after "error" of an outgoing call the result code of its response is not
  -- RECORDED; and "skipped" is the reply of the mock for an employee whose call has no transcript.
  pub lambda_handler-Says :
      (mock : Bool) (event : Value) (w : W) (x : Reply)
      → (lambda_handler s lib mock event w).0 ≡ ok x
      → Says event x (lambda_handler s lib mock event w).1
  unfolding lambda_handler
  lambda_handler-Says mock event =
      (lift->>=-Returns (Says event) (parse_event event) _ (λ place parsed.
        lift->>=-Returns (Says event) _ _ (λ info named. record {
          holds = λ w x h.
              (place, info, parsed, named, (run-Settled mock place.0 place.1 info).holds w x h);
        }))).holds
