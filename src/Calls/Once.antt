-- ===== src/Calls/Once.antt =====
-- The result code of a response over any runs of the dispatcher and the call end handler.
use emergency_contact.Prelude.{ℕ, String, ◌≡◌, refl, Bool, true, Option, some, arith}
use emergency_contact.Prelude.Int.{ℤ}
use emergency_contact.Python.Results.{Result, ok, err}
use emergency_contact.Python.Values.{Value, Fields, lookup}
use emergency_contact.Python.Actions.{
  Action, pure, lift, ◌>>=◌, Keeps, >>=-Keeps, pure-Keeps, lift-Keeps, if-Keeps, attempt-Keeps,
}
use emergency_contact.Aws.Tables.{not_exists, always}
use emergency_contact.Aws.Rows.{
  Rows, Fixed, Fixed-IsPreorder, Elsewhere-Fixed, Writes-Fixed, lookup-set_field, lookup-add_one_to,
  not_exists-HasField,
}
use emergency_contact.Aws.Retries.{retry-Keeps}
use emergency_contact.Calls.Services.{Key, Services, Documented}
use emergency_contact.Calls.Ending as Ending
use emergency_contact.Calls.Ending.Event.{parse_event}
use emergency_contact.Calls.Dispatch as Dispatch

-- A write that needs the attribute to be missing keeps it.
missing_keeps :
    (name : String) (change : Fields → Fields) (row : Fields) (v : Value)
    → not_exists name (some row) ≡ true
    → lookup name row ≡ some v
    → lookup name (change row) ≡ some v
missing_keeps name change row v passed h =
    let refused = not_exists-HasField name v (some row) (row, refl, h) in absurd (ground arith)

count_success_keeps :
    (id now : String) (row : Fields) (v : Value)
    → lookup "callResultCode" row ≡ some v
    → lookup "callResultCode" (Dispatch.count_success id now row) ≡ some v
unfolding Dispatch.count_success
count_success_keeps id now row v h = rw (
  lookup-add_one_to "callResultCode" "callAttempts" _ refl,
  lookup-set_field "callResultCode" "dispatchedAt" _ _ refl,
  lookup-set_field "callResultCode" "contactId" _ row refl,
  h,
)

module _ {W : Type 0} (t : Rows W Key) (s : Services W) (d : Documented t s) where
  abbrev pub Kept : W → W → Type 0
  Kept = Fixed t "callResultCode"

  keep :
      {A B : Type 0} (m : Action W A) (f : A → Action W B)
      → Keeps Kept m
      → ((a : A) → Keeps Kept (f a))
      → Keeps Kept (m >>= f)
  keep = >>=-Keeps (Fixed-IsPreorder t "callResultCode")

  keep_pure : {A : Type 0} (a : A) → Keeps Kept (pure a)
  keep_pure = pure-Keeps (Fixed-IsPreorder t "callResultCode")

  keep_lift : {A : Type 0} (r : Result A) → Keeps Kept (lift r)
  keep_lift = lift-Keeps (Fixed-IsPreorder t "callResultCode")

  now-Keeps : Keeps Kept s.utc_now_iso
  now-Keeps = Elsewhere-Fixed t "callResultCode" _ d.now_elsewhere

  send-Keeps : (k v : Value) → Keeps Kept (s.send_task_success k v)
  send-Keeps k v = Elsewhere-Fixed t "callResultCode" _ (d.send_elsewhere k v)

  update_missing-Keeps :
      (k : Key) (change : Fields → Fields)
      → Keeps Kept (s.responses.update_item k (not_exists "callResultCode") change)
  update_missing-Keeps k change =
      Writes-Fixed t "callResultCode" k _ change _ (d.updates k _ change)
        (missing_keeps "callResultCode" change)

  end_parsed-Keeps : (p : Ending.Event.Parsed) → Keeps Kept (Ending.end_parsed s p)
  unfolding Ending.end_parsed Ending.record_call_end Ending.send_task_success
  end_parsed-Keeps p =
      keep _ _ (keep _ _ now-Keeps (λ now. update_missing-Keeps _ _))
        (λ recorded. keep _ _ (send-Keeps _ _) (λ released. keep_pure _))

  call_end-Keeps :
      (int_of_text : String → Option ℤ) (event : Value)
      → Keeps Kept (Ending.lambda_handler s int_of_text event)
  unfolding Ending.lambda_handler
  call_end-Keeps int_of_text event =
      keep _ _ (keep_lift (parse_event int_of_text event)) end_parsed-Keeps

  module _ (text_of : Value → String) (first_byte : String → ℕ) where
    record_success-Keeps :
        (p : Dispatch.Event.Parsed) (id : String)
        → Keeps Kept (Dispatch.record_success s text_of first_byte p id)
    unfolding Dispatch.record_success
    record_success-Keeps p id = keep _ _ now-Keeps (λ now.
        Writes-Fixed t "callResultCode" _ always _ _ (d.updates _ always _)
          (λ row v passed h. count_success_keeps id now row v h))

    start-Keeps :
        (p : Dispatch.Event.Parsed)
        → Keeps Kept (Dispatch.start_outbound_call s text_of first_byte p)
    unfolding Dispatch.start_outbound_call Dispatch.start_once
    start-Keeps p =
        retry-Keeps Dispatch.is_retryable s.back_off _ (Fixed-IsPreorder t "callResultCode")
          (λ i. Elsewhere-Fixed t "callResultCode" _ (d.sleep_elsewhere i)) _
          (keep _ _ (Elsewhere-Fixed t "callResultCode" _ (d.start_elsewhere _ _))
            (λ id. keep_lift _))

    dispatch_mock-Keeps :
        (p : Dispatch.Event.Parsed) → Keeps Kept (Dispatch.dispatch_mock s text_of first_byte p)
    unfolding Dispatch.dispatch_mock Dispatch.record_if Dispatch.put_mock_recording
    dispatch_mock-Keeps p = keep _ _ (keep_lift _) (λ answer.
        keep _ _
          (if-Keeps _ _ _
            (keep _ _ (keep_lift _)
              (λ key. Elsewhere-Fixed t "callResultCode" _ (d.put_elsewhere key)))
            (keep_pure tt))
          (λ put.
            keep _ _ (record_success-Keeps p _)
              (λ counted. keep _ _ (send-Keeps _ _) (λ released. keep_pure _))))

    after_start-Keeps :
        (p : Dispatch.Event.Parsed) (o : Result String)
        → Keeps Kept (Dispatch.after_start s text_of first_byte p o)
    unfolding Dispatch.after_start Dispatch.record_error Dispatch.send_retry_task_success
    after_start-Keeps p (ok id) = keep _ _ (record_success-Keeps p id) (λ counted. keep_pure _)
    after_start-Keeps p (err e) =
        if-Keeps _ _ _
          (keep _ _ (keep _ _ now-Keeps (λ now. update_missing-Keeps _ _))
            (λ recorded. keep _ _ (send-Keeps _ _) (λ released. keep_pure _)))
          (keep_lift _)

    dispatch-Keeps :
        (mock : Bool) (event : Value)
        → Keeps Kept (Dispatch.lambda_handler s text_of first_byte mock event)
    unfolding Dispatch.lambda_handler Dispatch.dispatch_real
    dispatch-Keeps mock event = keep _ _ (keep_lift _) (λ p.
        if-Keeps mock _ _ (dispatch_mock-Keeps p)
          (keep _ _ (attempt-Keeps _ (start-Keeps p)) (λ o. after_start-Keeps p o)))

    -- Any number of runs of the two handlers, one after the other, each with its event.
    pub data Runs : W → W → Type 0 where
      stop : (w : W) → Runs w w
      ended :
          (int_of_text : String → Option ℤ) (event : Value) (w v : W)
          → Runs (Ending.lambda_handler s int_of_text event w).1 v
          → Runs w v
      dispatched :
          (mock : Bool) (event : Value) (w v : W)
          → Runs (Dispatch.lambda_handler s text_of first_byte mock event w).1 v
          → Runs w v

    -- Once a response has a result code, no further runs of the dispatcher and of the call end handler
    -- change or remove it, whatever their events are, and also where a run raises.
    pub call_result_code-Once : (w v : W) → Runs w v → Fixed t "callResultCode" w v
    call_result_code-Once _ _ (stop w) = (Fixed-IsPreorder t "callResultCode").reflexive w
    call_result_code-Once w v (ended int_of_text event _ _ r) =
        (Fixed-IsPreorder t "callResultCode").transitive w _ v
          ((call_end-Keeps int_of_text event).run w) (call_result_code-Once _ v r)
    call_result_code-Once w v (dispatched mock event _ _ r) =
        (Fixed-IsPreorder t "callResultCode").transitive w _ v ((dispatch-Keeps mock event).run w)
          (call_result_code-Once _ v r)
