-- ===== src/Calls/Tries.antt =====
-- How many requests the retries of the dispatcher make.
use emergency_contact.Prelude.{
  ℕ, zero, suc, ◌+◌, ◌≤◌, String, ◌≡◌, ◌≢◌, refl, sym, ◌∙◌, ap, ◌⊎◌, inl, inr, Bool, true, false,
  ltb, if◌then◌else◌, arith,
}
use emergency_contact.Python.Results.{Result, ok, err, Error, exhausted, err_injective}
use emergency_contact.Python.Values.{Value}
use emergency_contact.Python.Actions.{Action, pure, lift, continue, attempt, ◌>>=◌, >>=-cases}
use emergency_contact.Aws.Retries.{pause, after_try, retry_from}
use emergency_contact.Calls.Dispatch.{is_retryable}
use emergency_contact.Calls.Services.{Services, Counted}
use emergency_contact.Calls.Dispatch.{
  attributes_of, max_dispatch_attempts, start_once, require_contact_id,
}
use emergency_contact.Calls.Dispatch.Event.{Parsed}

module _ {W : Type 0} (calls : W → ℕ) (s : Services W) (d : Counted calls s)
    (text_of : Value → String) (first_byte : String → ℕ) where
  -- At most `n` requests, and exactly `n` where the retries are exhausted.
  pub record Tries (n : ℕ) (m : Action W String) : Type 0 where
    pub bound : (w : W) → calls (m w).1 ≤ calls w + n
    pub full : (w : W) → (m w).0 ≡ err exhausted → calls (m w).1 ≡ calls w + n

  require_raises : (v : Value) → require_contact_id v ≢ err exhausted
  unfolding require_contact_id
  require_raises v h = grind arith

  start_once-Once :
      (p : Parsed) (w : W)
      → (calls (start_once s text_of first_byte p w).1 ≡ suc (calls w))
        × ((start_once s text_of first_byte p w).0 ≢ err exhausted)
  unfolding start_once lift
  start_once-Once p w = step (>>=-cases start (λ id. lift (require_contact_id id)) w)
    where
      start : Action W Value
      start = s.start_outbound_voice_contact p.phone_number (attributes_of s text_of first_byte p)

      step :
          ((a : Value) × ((start w).0 ≡ ok a)
              × (start_once s text_of first_byte p w ≡ lift (require_contact_id a) (start w).1))
            ⊎ ((e : Error) × ((start w).0 ≡ err e)
                × (start_once s text_of first_byte p w ≡ (err e, (start w).1)))
          → (calls (start_once s text_of first_byte p w).1 ≡ suc (calls w))
            × ((start_once s text_of first_byte p w).0 ≢ err exhausted)
      step (inl (v, h, e)) = (
        ap (λ o. calls o.1) e ∙ d.started _ _ w,
        λ x. require_raises v (sym (ap (λ o. o.0) e) ∙ x),
      )
      step (inr (x, h, e)) = (
        ap (λ o. calls o.1) e ∙ d.started _ _ w,
        λ k. d.start_raises _ _ w (h ∙ ap err (err_injective (sym (ap (λ o. o.0) e) ∙ k))),
      )

  -- A step that makes no request and does not raise the exception of the exhausted retries.
  record IsQuiet (m : Action W (Unit {0})) : Type 0 where
    same : (w : W) → calls (m w).1 ≡ calls w
    raises : (w : W) → (m w).0 ≢ err exhausted

  if-IsQuiet :
      (b : Bool) (m n : Action W (Unit {0})) → IsQuiet m → IsQuiet n → IsQuiet (if b then m else n)
  if-IsQuiet true m n g k = g
  if-IsQuiet false m n g k = k

  pause-IsQuiet : (i : ℕ) → IsQuiet (pause is_retryable s.back_off max_dispatch_attempts i)
  unfolding pause pure
  pause-IsQuiet i =
      if-IsQuiet (ltb (suc i) max_dispatch_attempts) (s.back_off i) (pure tt)
        (record { same = d.sleep_silent i; raises = d.sleep_raises i })
        (record { same = λ w. refl; raises = λ w e. cc })

  if-Tries :
      (b : Bool) (n : ℕ) (m k : Action W String)
      → Tries n m
      → Tries n k
      → Tries n (if b then m else k)
  if-Tries true n m k g h = g
  if-Tries false n m k g h = h

  lift-Tries : (n : ℕ) (r : Result String) → r ≢ err exhausted → Tries n (lift r)
  unfolding lift
  lift-Tries n r h = record { bound = λ w. omega arith; full = λ w e. absurd (h e) }

  >>=-Tries :
      (n : ℕ) (m : Action W (Unit {0})) (next : Action W String)
      → IsQuiet m
      → Tries n next
      → Tries n (m >>= λ slept. next)
  >>=-Tries n m next q g = record {
    bound = λ w. (step w (>>=-cases m (λ slept. next) w)).0;
    full = λ w. (step w (>>=-cases m (λ slept. next) w)).1;
  }
    where
      after : Action W String
      after = m >>= λ slept. next

      step :
          (w : W)
          → ((a : Unit {0}) × ((m w).0 ≡ ok a) × (after w ≡ next (m w).1))
            ⊎ ((e : Error) × ((m w).0 ≡ err e) × (after w ≡ (err e, (m w).1)))
          → (calls (after w).1 ≤ calls w + n)
            × ((after w).0 ≡ err exhausted → calls (after w).1 ≡ calls w + n)
      step w (inl (a, h, e)) =
          let here = ap (λ o. calls o.1) e in
          let same = q.same w in
          let most = g.bound (m w).1 in
          (omega arith, λ k. let all = g.full (m w).1 (sym (ap (λ o. o.0) e) ∙ k) in omega arith)
      step w (inr (x, h, e)) =
          let here = ap (λ o. calls o.1) e in
          let same = q.same w in
          (
            omega arith,
            λ k. absurd (q.raises w (h ∙ ap err (err_injective (sym (ap (λ o. o.0) e) ∙ k)))),
          )

  -- The rest of the turns after one that was not exhausted itself.
  after_try-Tries :
      (o : Result String) (i n : ℕ) (next : Action W String)
      → o ≢ err exhausted
      → Tries n next
      → Tries n (after_try is_retryable s.back_off max_dispatch_attempts o i next)
  unfolding after_try pure lift
  after_try-Tries (ok id) i n next h g = lift-Tries n (ok id) h
  after_try-Tries (err e) i n next h g =
      if-Tries _ n _ _ (>>=-Tries n _ next (pause-IsQuiet i) g) (lift-Tries n (err e) h)

  pub retry_from-Tries :
      (p : Parsed) (left i : ℕ)
      → Tries left (
          retry_from is_retryable s.back_off max_dispatch_attempts
            (start_once s text_of first_byte p)
            left
            i)
  unfolding retry_from lift ◌>>=◌ continue attempt
  retry_from-Tries p zero i = record { bound = λ w. omega arith; full = λ w e. omega arith }
  retry_from-Tries p (suc left) i = record {
    bound = λ w.
        let once = start_once-Once p w in
        let rest =
          (later (retry_from-Tries p left (suc i)) w).bound
            (start_once s text_of first_byte p w).1 in
        omega (arith, once.0);
    full = λ w e.
        let once = start_once-Once p w in
        let rest =
          (later (retry_from-Tries p left (suc i)) w).full (start_once s text_of first_byte p w).1
            e in
        omega (arith, once.0);
  }
    where
      later :
          Tries left (
            retry_from is_retryable s.back_off max_dispatch_attempts
              (start_once s text_of first_byte p)
              left
              (suc i))
          → (w : W)
          → Tries left (
              after_try is_retryable s.back_off max_dispatch_attempts
                (start_once s text_of first_byte p w).0
                i
                (retry_from is_retryable s.back_off max_dispatch_attempts
                  (start_once s text_of first_byte p)
                  left
                  (suc i)))
      later g w = after_try-Tries _ i left _ (start_once-Once p w).1 g
