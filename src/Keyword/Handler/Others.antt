-- ===== src/Keyword/Handler/Others.antt =====
-- The attributes of a response that the keyword matcher leaves alone.
use emergency_contact.Prelude.{String, ◌≡◌, ◌∙◌, false, List, str_eq}
use emergency_contact.Prelude.Int.{ℤ}
use emergency_contact.Python.Results.{Result, ok, err}
use emergency_contact.Python.Values.{Value}
use emergency_contact.Python.Actions.{
  Action, pure, lift, ◌>>=◌, Keeps, >>=-Keeps, pure-Keeps, lift-Keeps, if-Keeps, attempt-Keeps,
}
use emergency_contact.Aws.Tables.{always}
use emergency_contact.Aws.Rows.{
  Rows, Fixed, Fixed-IsPreorder, Elsewhere-Fixed, Writes-Fixed, lookup-set_field,
}
use emergency_contact.Aws.Retries.{retry-Keeps}
use emergency_contact.Recording.Parsing.{RecordingKeyInfo}
use emergency_contact.Keyword.Transcript.{Floats}
use emergency_contact.Keyword.Event.{parse_event}
use emergency_contact.Keyword.Handler.{
  Services, Library, Reply, key_of, classify_row, other_row, is_retryable, read_transcript_body,
  resolve_dictionary_version, get_dictionary_snapshot, record_response, record_transcript_meta,
  run_matching_pipeline, run_with_retry, record_other_fallback, after_run, match_parsed,
  lambda_handler,
}
use emergency_contact.Python.Texts.{Each}
use emergency_contact.Keyword.Handler.Rows.{Documented, written_names}

module _ {W F : Type 0} (t : Rows W (String × String)) (s : Services W) (d : Documented t s)
    (lib : Library) (fl : Floats F) (name : String)
    (other : Each (λ k. str_eq k name ≡ false) written_names) where
  abbrev Kept : W → W → Type 0
  Kept = Fixed t name

  keep :
      {A B : Type 0} (m : Action W A) (f : A → Action W B)
      → Keeps Kept m
      → ((a : A) → Keeps Kept (f a))
      → Keeps Kept (m >>= f)
  keep = >>=-Keeps (Fixed-IsPreorder t name)

  keep_pure : {A : Type 0} (a : A) → Keeps Kept (pure a)
  keep_pure = pure-Keeps (Fixed-IsPreorder t name)

  keep_lift : {A : Type 0} (r : Result A) → Keeps Kept (lift r)
  keep_lift = lift-Keeps (Fixed-IsPreorder t name)

  record_response-Keeps :
      (info : RecordingKeyInfo) (status : String) (keywords : List String) (excerpt : String)
      (version : ℤ)
      → Keeps Kept (record_response s lib fl info status keywords excerpt version)
  unfolding record_response classify_row
  record_response-Keeps info status keywords excerpt version =
      Writes-Fixed t name (key_of info) always _ _ (d.updates _ always _) (λ row v passed h.
        lookup-set_field name "dictionaryVersion" _ _ other.1.1.1.0
        ∙ lookup-set_field name "transcriptExcerpt" _ _ other.1.1.0
        ∙ lookup-set_field name "matchedKeywords" _ _ other.1.0
        ∙ lookup-set_field name "voiceStatus" _ row other.0
        ∙ h)

  fallback-Keeps : (info : RecordingKeyInfo) → Keeps Kept (record_other_fallback s lib fl info)
  unfolding record_other_fallback other_row
  fallback-Keeps info =
      Writes-Fixed t name (key_of info) always _ _ (d.updates _ always _) (λ row v passed h.
        lookup-set_field name "matchedKeywords" _ _ other.1.0
        ∙ lookup-set_field name "voiceStatus" _ row other.0
        ∙ h)

  run-Keeps :
      (bucket key : Value) (info : RecordingKeyInfo)
      → Keeps Kept (run_matching_pipeline s lib fl bucket key info)
  unfolding run_matching_pipeline read_transcript_body resolve_dictionary_version
      get_dictionary_snapshot record_transcript_meta
  run-Keeps bucket key info =
      keep _ _
        (keep _ _ (Elsewhere-Fixed t name _ (d.get_elsewhere bucket key)) (λ raw. keep_lift _))
        (λ body. keep _ _ (keep_lift _) (λ payload.
          keep _ _ (keep _ _ (Elsewhere-Fixed t name _ (d.cycle_elsewhere _)) (λ item. keep_lift _))
            (λ version.
              keep _ _
                (keep _ _ (Elsewhere-Fixed t name _ (d.query_elsewhere version))
                  (λ pages. keep_pure _))
                (λ dictionary. keep _ _ (keep_lift _) (λ verdict.
                  keep _ _ (record_response-Keeps info _ _ _ _) (λ recorded.
                    keep _ _ (Elsewhere-Fixed t name _ (d.meta_elsewhere _ always _))
                      (λ noted. keep_pure _)))))))

  after_run-Keeps :
      (info : RecordingKeyInfo) (o : Result (Reply F)) → Keeps Kept (after_run s lib fl info o)
  unfolding after_run
  after_run-Keeps info (ok stored) = keep_pure _
  after_run-Keeps info (err e) =
      if-Keeps _ _ _ (keep _ _ (fallback-Keeps info) (λ recorded. keep_pure _)) (keep_lift _)

  match_parsed-Keeps : (place : Value × Value) → Keeps Kept (match_parsed s lib fl place)
  unfolding match_parsed run_with_retry
  match_parsed-Keeps (bucket, key) = keep _ _ (keep_lift _) (λ info.
      keep _ _
        (attempt-Keeps _ (
          retry-Keeps is_retryable s.back_off _ (Fixed-IsPreorder t name)
            (λ i. Elsewhere-Fixed t name _ (d.sleep_elsewhere i)) _ (run-Keeps bucket key info)))
        (λ o. after_run-Keeps info o))

  -- No run of the keyword matcher, also none that raises, changes or removes another attribute of a
  -- response than the four that it writes. The services are any that act on the table of the responses
  -- as documented.
  pub others-Fixed : (event : Value) (w : W) → Fixed t name w (lambda_handler s lib fl event w).1
  unfolding lambda_handler
  others-Fixed event = (keep _ _ (keep_lift (parse_event event)) match_parsed-Keeps).run
