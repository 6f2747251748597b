-- ===== src/Calls/Bounds.antt =====
-- How many requests to Connect a run of the dispatcher makes.
use emergency_contact.Prelude.{
  ℕ, ◌+◌, ◌≤◌, String, ◌≡◌, ◌≢◌, refl, sym, ◌∙◌, ap, Bool, true, false, if◌then◌else◌, arith,
}
use emergency_contact.Python.Results.{Result, ok, err, exhausted}
use emergency_contact.Python.Values.{Value}
use emergency_contact.Python.Actions.{
  Action, pure, lift, continue, attempt, ◌>>=◌, IsPreorder, Keeps, >>=-Keeps, pure-Keeps,
  lift-Keeps, if-Keeps, >>=-returns,
}
use emergency_contact.Aws.Tables.{always}
use emergency_contact.Aws.Retries.{retry}
use emergency_contact.Calls.Services.{Services, Counted, Silent}
use emergency_contact.Calls.Dispatch.{
  dispatched, failed, max_dispatch_attempts, is_exhausted, start_outbound_call, record_success,
  record_error, send_retry_task_success, record_if, put_mock_recording, dispatch_mock, after_start,
  dispatch_real, lambda_handler,
}
use emergency_contact.Calls.Tries.{retry_from-Tries}
use emergency_contact.Calls.Dispatch.Event.{Parsed, parse_event}

module _ {W : Type 0} (calls : W → ℕ) (s : Services W) (d : Counted calls s)
    (text_of : Value → String) (first_byte : String → ℕ) where
  abbrev pub Same : W → W → Type 0
  Same before after = calls after ≡ calls before

  Same-IsPreorder : IsPreorder Same
  Same-IsPreorder = record { reflexive = λ w. refl; transitive = λ u v w g k. k ∙ g }

  keep :
      {A B : Type 0} (m : Action W A) (f : A → Action W B)
      → Keeps Same m
      → ((a : A) → Keeps Same (f a))
      → Keeps Same (m >>= f)
  keep = >>=-Keeps Same-IsPreorder

  keep_pure : {A : Type 0} (a : A) → Keeps Same (pure a)
  keep_pure = pure-Keeps Same-IsPreorder

  keep_lift : {A : Type 0} (r : Result A) → Keeps Same (lift r)
  keep_lift = lift-Keeps Same-IsPreorder

  quiet : {A : Type 0} (m : Action W A) → Silent calls m → Keeps Same m
  quiet m h = record { run = h }

  record_success-Same :
      (p : Parsed) (id : String) → Keeps Same (record_success s text_of first_byte p id)
  unfolding record_success
  record_success-Same p id =
      keep _ _ (quiet _ d.now_silent) (λ now. quiet _ (d.update_silent _ always _))

  dispatch_mock-Same : (p : Parsed) → Keeps Same (dispatch_mock s text_of first_byte p)
  unfolding dispatch_mock record_if put_mock_recording
  dispatch_mock-Same p = keep _ _ (keep_lift _) (λ answer.
      keep _ _
        (if-Keeps _ _ _ (keep _ _ (keep_lift _) (λ key. quiet _ (d.put_silent key))) (keep_pure tt))
        (λ put.
          keep _ _ (record_success-Same p _)
            (λ counted. keep _ _ (quiet _ (d.send_silent _ _)) (λ released. keep_pure _))))

  after_start-Same :
      (p : Parsed) (o : Result String) → Keeps Same (after_start s text_of first_byte p o)
  unfolding after_start record_error send_retry_task_success
  after_start-Same p (ok id) = keep _ _ (record_success-Same p id) (λ counted. keep_pure _)
  after_start-Same p (err e) =
      if-Keeps _ _ _
        (keep _ _ (keep _ _ (quiet _ d.now_silent) (λ now. quiet _ (d.update_silent _ _ _)))
          (λ recorded. keep _ _ (quiet _ (d.send_silent _ _)) (λ released. keep_pure _)))
        (keep_lift _)

  never_failed :
      (m : Action W Bool) (id : String) (w : W)
      → ((m >>= λ x. pure (dispatched id false)) w).0 ≢ ok failed
  unfolding pure
  never_failed m id w h =
      let last = >>=-returns m (λ x. pure (dispatched id false)) w failed h in
      let same = ap (λ o. o.0) last.2 in cc

  -- Only an exhausted start is answered with a failure.
  after_start-Exhausted :
      (p : Parsed) (o : Result String) (w : W)
      → (after_start s text_of first_byte p o w).0 ≡ ok failed
      → o ≡ err exhausted
  unfolding after_start is_exhausted lift
  after_start-Exhausted p (ok id) w h = absurd (never_failed _ id w h)
  after_start-Exhausted p (err exhausted) w h = refl
  after_start-Exhausted p (err e) w h = cc

  dispatch_real-Bounded :
      (p : Parsed) (w : W)
      → calls (dispatch_real s text_of first_byte p w).1 ≤ calls w + max_dispatch_attempts
  unfolding dispatch_real ◌>>=◌ continue attempt start_outbound_call retry
  dispatch_real-Bounded p w =
      let most =
        (retry_from-Tries calls s d text_of first_byte p max_dispatch_attempts 0).bound w in
      let after =
        (after_start-Same p (start_outbound_call s text_of first_byte p w).0).run
          (start_outbound_call s text_of first_byte p w).1 in
      omega arith

  dispatch_real-Failed :
      (p : Parsed) (w : W)
      → (dispatch_real s text_of first_byte p w).0 ≡ ok failed
      → calls (dispatch_real s text_of first_byte p w).1 ≡ calls w + max_dispatch_attempts
  unfolding dispatch_real ◌>>=◌ continue attempt start_outbound_call retry
  dispatch_real-Failed p w h =
      let started = start_outbound_call s text_of first_byte p w in
      let none_left = after_start-Exhausted p started.0 started.1 h in
      let all =
        (retry_from-Tries calls s d text_of first_byte p max_dispatch_attempts 0).full w
          none_left in
      let after = (after_start-Same p started.0).run started.1 in omega arith

  -- A run of the dispatcher makes at most three requests to Connect, whatever the event and the
  -- answers are, and in the mock mode none. The services are any whose requests `calls` counts.
  pub lambda_handler-Bounded :
      (mock_mode : Bool) (event : Value) (w : W)
      → calls (lambda_handler s text_of first_byte mock_mode event w).1
        ≤ calls w + (if mock_mode then 0 else max_dispatch_attempts)
  unfolding lambda_handler lift ◌>>=◌ continue
  lambda_handler-Bounded mock_mode event w = start mock_mode (parse_event event)
    where
      start :
          (b : Bool) (o : Result Parsed)
          → calls
              (continue
                (λ p.
                  if b
                  then dispatch_mock s text_of first_byte p
                  else dispatch_real s text_of first_byte p)
                (o, w)).1
            ≤ calls w + (if b then 0 else max_dispatch_attempts)
      start b (err e) = omega arith
      start true (ok p) = let same = (dispatch_mock-Same p).run w in omega arith
      start false (ok p) = dispatch_real-Bounded p w

  -- Where a run of the dispatcher answers that the dispatch failed, it has made exactly three requests
  -- to Connect.
  pub failed-Exhausted :
      (event : Value) (w : W)
      → (lambda_handler s text_of first_byte false event w).0 ≡ ok failed
      → calls (lambda_handler s text_of first_byte false event w).1
        ≡ calls w + max_dispatch_attempts
  unfolding lambda_handler lift
  failed-Exhausted event w h =
      let ran = >>=-returns (lift (parse_event event)) _ w failed h in
      let real = dispatch_real-Failed ran.0 w (sym (ap (λ o. o.0) ran.2) ∙ h) in
      ap (λ o. calls o.1) ran.2 ∙ real
