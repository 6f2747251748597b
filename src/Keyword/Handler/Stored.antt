-- ===== src/Keyword/Handler/Stored.antt =====
-- What the keyword matcher leaves in the table of the responses.
use emergency_contact.Prelude.{
  String, ◌≡◌, sym, subst, ap, ◌∙◌, Bool, true, false, Option, some, List, [],
}
use emergency_contact.Prelude.Int.{ℤ}
use emergency_contact.Python.Results.{Result, ok, err, ok_injective}
use emergency_contact.Python.Values.{Value, str, dict, Fields}
use emergency_contact.Python.Actions.{
  Action, pure, lift, attempt, continue, ◌>>=◌, Returns, >>=-Returns, if-Returns, lift_err-Returns,
  >>=-returns, lift->>=-Returns,
}
use emergency_contact.Aws.Tables.{always}
use emergency_contact.Aws.Rows.{Rows, HasField, or_key}
use emergency_contact.Aws.Retries.{retry-Returns}
use emergency_contact.Recording.Parsing.{RecordingKeyInfo}
use emergency_contact.Dictionary.Snapshot.{Snapshot, as_dict}
use emergency_contact.Keyword.Matcher.{classify_voice_status, priority_order}
use emergency_contact.Keyword.Matcher.Priority.{IsVerdict, classify_voice_status_total}
use emergency_contact.Dictionary.Snapshot.Classified.{as_dict-IsWellFormed}
use emergency_contact.Keyword.Transcript.{Floats}
use emergency_contact.Keyword.Event.{parse_event}
use emergency_contact.Keyword.Handler.{
  Services, Library, Reply, matched, fallback, key_of, truncate_excerpt, other_row, is_retryable,
  is_exhausted, record_response, record_transcript_meta, run_matching_pipeline, run_with_retry,
  record_other_fallback, after_run, match_parsed, lambda_handler,
}
use emergency_contact.Keyword.Handler.Rows.{
  Documented, HasVerdict, classify_row-HasVerdict, classify_row-excerpt, other_row-HasVerdict,
}

module _ {W F : Type 0} (t : Rows W (String × String)) (s : Services W) (d : Documented t s)
    (lib : Library) (fl : Floats F) where
  -- The verdict of a text by the priority of the keywords, with the start of that text.
  abbrev pub IsClassified : String → List String → Option Fields → Type 0
  IsClassified status keywords o =
      HasVerdict status keywords o
      × ((text : String) × (dictionary : Snapshot) × IsVerdict lib.lower (lib.lower text)
            (as_dict dictionary) priority_order status keywords
          × HasField "transcriptExcerpt" (str (truncate_excerpt text)) o)

  -- The response has the status and the keywords of the reply, which are those of a text.
  pub Stored : Reply F → W → Type 0
  Stored (matched info status keywords version confidence) w =
      IsClassified status keywords (t.row_at w (key_of info))
  Stored (fallback info) w = HasVerdict "OTHER" [] (t.row_at w (key_of info))

  -- An update without a condition that answers has changed the row.
  written_row :
      (k : String × String) (change : Fields → Fields) (w : W) (b : Bool)
      → (s.responses.update_item k always change w).0 ≡ ok b
      → t.row_at (s.responses.update_item k always change w).1 k
        ≡ some (change (or_key (t.row_at w k) (t.key_fields k)))
  unfolding always
  written_row k change w true h = (d.updates k always change).written w h
  written_row k change w false h = let never = ((d.updates k always change).refused w h).0 in cc

  -- The last steps of the pipeline: the verdict is written, and the note leaves it alone.
  module _ (info : RecordingKeyInfo) (text : String) (dictionary : Snapshot) (status : String)
      (keywords : List String) (version : ℤ) (confidence : F)
      (v : IsVerdict lib.lower
        (lib.lower text)
        (as_dict dictionary)
        priority_order
        status
        keywords) where
    write : Action W Bool
    write = record_response s lib fl info status keywords (truncate_excerpt text) version

    note : Action W Bool
    note = record_transcript_meta s lib fl info (truncate_excerpt text) confidence

    reply : Reply F
    reply = matched info status keywords version confidence

    write-IsClassified :
        (w : W) (b : Bool)
        → (write w).0 ≡ ok b
        → IsClassified status keywords (t.row_at (write w).1 (key_of info))
    unfolding write record_response
    write-IsClassified w b h =
        subst (IsClassified status keywords) (sym (written_row (key_of info) _ w b h)) (
          classify_row-HasVerdict status keywords _ version _,
          (text, dictionary, v, classify_row-excerpt status keywords _ version _),
        )

    note-Stored :
        (w : W)
        → IsClassified status keywords (t.row_at w (key_of info))
        → (r : Reply F) → ((note >>= λ noted. pure reply) w).0 ≡ ok r
        → Stored r ((note >>= λ noted. pure reply) w).1
    unfolding note reply record_transcript_meta Stored pure
    note-Stored w k r h =
        let ran = >>=-returns note (λ noted. pure reply) w r h in
        let same = d.meta_elsewhere _ always _ w (key_of info) in
        let there : Stored reply (note w).1 = subst (IsClassified status keywords) (sym same) k in
        subst (λ o. Stored r o.1) (sym ran.2)
          (subst (λ x. Stored x (note w).1) (ok_injective (sym (ap (λ o. o.0) ran.2) ∙ h)) there)

    record-Stored : Returns Stored (write >>= λ recorded. note >>= λ noted. pure reply)
    record-Stored = record {
      holds = λ w r h.
          let ran = >>=-returns write (λ recorded. note >>= λ noted. pure reply) w r h in
          subst (λ o. Stored r o.1) (sym ran.2)
            (note-Stored (write w).1 (write-IsClassified w ran.0 ran.1) r
              (sym (ap (λ o. o.0) ran.2) ∙ h));
    }

  IsVerdict-of_total :
      (text : String) (dictionary : Snapshot) (verdict : String × List String)
      → classify_voice_status lib.lower (str text) (dict (as_dict dictionary)) ≡ ok verdict
      → IsVerdict lib.lower (lib.lower text) (as_dict dictionary) priority_order verdict.0 verdict.1
  IsVerdict-of_total text dictionary verdict e =
      let total =
        classify_voice_status_total lib.lower text (as_dict dictionary)
          (as_dict-IsWellFormed lib.lower (lib.lower text) dictionary) in
      subst (λ x. IsVerdict lib.lower (lib.lower text) (as_dict dictionary) priority_order x.0 x.1)
        (ok_injective (sym total.2 ∙ e)) total.3

  fallback-Stored :
      (info : RecordingKeyInfo)
      → Returns Stored (record_other_fallback s lib fl info >>= λ recorded. pure (fallback info))
  unfolding record_other_fallback Stored pure
  fallback-Stored info = record {
    holds = λ w r h.
        let ran =
          >>=-returns (record_other_fallback s lib fl info) (λ recorded. pure (fallback info)) w r
            h in
        let there : Stored (fallback info) (record_other_fallback s lib fl info w).1 =
          subst (HasVerdict "OTHER" []) (sym (written_row (key_of info) other_row w ran.0 ran.1))
            (other_row-HasVerdict _) in
        subst (λ o. Stored r o.1) (sym ran.2)
          (subst (λ x. Stored x (record_other_fallback s lib fl info w).1)
            (ok_injective (sym (ap (λ o. o.0) ran.2) ∙ h)) there);
  }

  run-Stored :
      (bucket key : Value) (info : RecordingKeyInfo)
      → Returns Stored (run_matching_pipeline s lib fl bucket key info)
  unfolding run_matching_pipeline write note reply
  run-Stored bucket key info = >>=-Returns Stored _ _ (λ body. >>=-Returns Stored _ _ (λ payload.
      >>=-Returns Stored _ _ (λ version. >>=-Returns Stored _ _ (λ dictionary.
        lift->>=-Returns Stored _ _ (λ verdict e.
          record-Stored info payload.0 dictionary verdict.0 verdict.1 version payload.1
            (IsVerdict-of_total payload.0 dictionary verdict e))))))

  after_run-Stored :
      (info : RecordingKeyInfo) (o : Result (Reply F) × W)
      → ((r : Reply F) → o.0 ≡ ok r → Stored r o.1)
      → (r : Reply F) → (after_run s lib fl info o.0 o.1).0 ≡ ok r
      → Stored r (after_run s lib fl info o.0 o.1).1
  unfolding after_run pure
  after_run-Stored info (ok stored, w) k r h = k r h
  after_run-Stored info (err e, w) k r h =
      (if-Returns Stored (is_exhausted e) _ _ (fallback-Stored info)
          (lift_err-Returns Stored e)).holds
        w r h

  attempted :
      (info : RecordingKeyInfo) (bucket key : Value)
      → Returns Stored
          (attempt (run_with_retry s lib fl bucket key info) >>= after_run s lib fl info)
  unfolding attempt ◌>>=◌ continue run_with_retry
  attempted info bucket key = record {
    holds = λ w r h.
        after_run-Stored info (run_with_retry s lib fl bucket key info w)
          (λ x k.
            (retry-Returns is_retryable s.back_off _ Stored _ (run-Stored bucket key info)).holds w
              x k)
          r h;
  }

  match_parsed-Stored : (place : Value × Value) → Returns Stored (match_parsed s lib fl place)
  unfolding match_parsed
  match_parsed-Stored (bucket, key) = >>=-Returns Stored _ _ (λ info. attempted info bucket key)

  -- Where the keyword matcher returns, the response has what the reply says: after "ok" the status and
  -- the keywords of the reply, which are the verdict of a text by the priority of the categories, with
  -- the start of that text as its excerpt; after "fallback" the status OTHER and no keywords. The
  -- services are any that act on the table of the responses as documented.
  pub lambda_handler-Stored :
      (event : Value) (w : W) (r : Reply F)
      → (lambda_handler s lib fl event w).0 ≡ ok r
      → Stored r (lambda_handler s lib fl event w).1
  unfolding lambda_handler
  lambda_handler-Stored event =
      (>>=-Returns Stored (lift (parse_event event)) (match_parsed s lib fl)
        match_parsed-Stored).holds
