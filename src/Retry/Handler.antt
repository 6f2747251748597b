-- ===== src/Retry/Handler.antt =====
-- backend/lambdas/retry_evaluator/handler.py: whether and when an employee is called again. The log
-- messages are left out.
use emergency_contact.Prelude.{
  ℕ, String, ◌≡◌, refl, ap, subst, ◌⊎◌, inl, inr, Bool, true, false, not, Option, none, some, List,
  [], ◌∷◌, str_eq, if◌then◌else◌,
}
use emergency_contact.Python.Results.{
  Result, ok, err, value_error, raise_if, ◌>>=◌, ◌>>◌, ok_injective, >>=-eq-ok,
}
use emergency_contact.Python.Values.{Value, null, str, dict, Fields, get, lookup, mem, in_set}
use emergency_contact.Aws.Tables.{is_missing}
use emergency_contact.Inbound.Moments.{Moment}
use emergency_contact.Retry.{should_retry, derive_final_status, terminal_voice_statuses}
use emergency_contact.Retry.Decision.{derive_final_status_cases}
use emergency_contact.Retry.Times.{compute_next_dispatch_at, compute_retry_wait_seconds}

abbrev pub required_keys : List String
required_keys =
    "cycleId" ∷ "employeeId" ∷ "voiceStatus" ∷ "attempts" ∷ "retryCount" ∷ "retryIntervalMinutes"
    ∷ "prevEndAt" ∷ []

-- The fields that the decision reads.
pub record Parsed : Type 0 where
  pub voice_status : Value
  pub call_result_code : Value
  pub attempts : Value
  pub retry_count : Value
  pub retry_interval_minutes : Value
  pub prev_end_at : Value

pub record Reply : Type 0 where
  pub retry : Bool
  pub retry_wait_seconds : ℕ
  pub next_dispatch_at : Option String
  pub final_status : Option Value

unfoldable pub event_dict : Value → Result Fields
event_dict (dict d) = ok d
event_dict _ = err value_error

unfoldable pub all_present : Fields → List String → Bool
all_present event [] = true
all_present event (k ∷ ks) = if is_missing (lookup k event) then false else all_present event ks

-- isinstance(v, str) and v
unfoldable pub is_given : Value → Bool
is_given (str s) = not (str_eq s "")
is_given _ = false

-- v is None or isinstance(v, str)
unfoldable pub is_text_or_null : Value → Bool
is_text_or_null null = true
is_text_or_null (str s) = true
is_text_or_null _ = false

unfoldable pub parse_event : Value → Result Parsed
parse_event raw = do
  event ← event_dict raw
  raise_if (not (all_present event required_keys)) value_error
  raise_if (not (is_given (get "cycleId" event))) value_error
  raise_if (not (is_given (get "employeeId" event))) value_error
  raise_if (not (is_text_or_null (get "callResultCode" event))) value_error
  ok (record {
    voice_status = get "voiceStatus" event;
    call_result_code = get "callResultCode" event;
    attempts = get "attempts" event;
    retry_count = get "retryCount" event;
    retry_interval_minutes = get "retryIntervalMinutes" event;
    prev_end_at = get "prevEndAt" event;
  })

-- `now` is the time of the run, as it is written.
module _ (fromisoformat : String → Option Moment) (isoformat_z : Moment → String)
    (now : String) where
  unfoldable pub call_again : Parsed → Result Reply
  call_again p = do
    next_dispatch_at ←
        compute_next_dispatch_at fromisoformat isoformat_z p.prev_end_at p.retry_interval_minutes
    wait_seconds ←
        compute_retry_wait_seconds fromisoformat isoformat_z p.prev_end_at p.retry_interval_minutes
          (str now)
    ok (record {
      retry = true;
      retry_wait_seconds = wait_seconds;
      next_dispatch_at = some next_dispatch_at;
      final_status = none;
    })

  unfoldable pub finish : Parsed → Result Reply
  finish p = do
    final_status ← derive_final_status p.voice_status
    ok (record {
      retry = false;
      retry_wait_seconds = 0;
      next_dispatch_at = none;
      final_status = some final_status;
    })

  unfoldable pub evaluate : Parsed → Result Reply
  evaluate p = do
    retry ← should_retry p.voice_status p.call_result_code p.attempts p.retry_count
    if retry then call_again p else finish p

  unfoldable pub lambda_handler : Value → Result Reply
  lambda_handler event = do parsed ← parse_event event; evaluate parsed

  -- A reply either asks for another call, at a time and without a final status, or ends the calls.
  pub IsDecision : Reply → Type 0
  IsDecision r =
      ((r.retry ≡ true)
        × (r.final_status ≡ none)
        × ((at : String) × (r.next_dispatch_at ≡ some at)))
      ⊎ ((r.retry ≡ false)
          × (r.retry_wait_seconds ≡ 0)
          × (r.next_dispatch_at ≡ none)
          × ((s : String) × (r.final_status ≡ some (str s))
              × (mem s terminal_voice_statuses ≡ true)))

  call_again-IsDecision : (p : Parsed) (r : Reply) → call_again p ≡ ok r → IsDecision r
  unfolding call_again IsDecision
  call_again-IsDecision p r h =
      let next =
        >>=-eq-ok
          (compute_next_dispatch_at fromisoformat isoformat_z p.prev_end_at
            p.retry_interval_minutes)
          _ h in
      let wait =
        >>=-eq-ok
          (compute_retry_wait_seconds fromisoformat isoformat_z p.prev_end_at
            p.retry_interval_minutes (str now))
          _ next.2 in
      subst IsDecision (ok_injective wait.2) (inl (refl, refl, (next.0, refl)))

  final_text :
      (v final : Value)
      → derive_final_status v ≡ ok final
      → (s : String) × (final ≡ str s) × (mem s terminal_voice_statuses ≡ true)
  unfolding derive_final_status mem in_set
  final_text (str s) final h = elim (derive_final_status_cases s final h) [
    | inl c ↦ (s, c.0, c.1)
    | inr c ↦ ("UNREACHABLE", c.0, refl)
  ]
  final_text _ final h = cc

  finish-IsDecision : (p : Parsed) (r : Reply) → finish p ≡ ok r → IsDecision r
  unfolding finish IsDecision
  finish-IsDecision p r h =
      let final = >>=-eq-ok (derive_final_status p.voice_status) _ h in
      let text = final_text p.voice_status final.0 final.1 in
      subst IsDecision (ok_injective final.2)
        (inr (refl, refl, refl, (text.0, ap some text.1, text.2)))

  evaluate-IsDecision : (p : Parsed) (r : Reply) → evaluate p ≡ ok r → IsDecision r
  unfolding evaluate
  evaluate-IsDecision p r h =
      let due =
        >>=-eq-ok (should_retry p.voice_status p.call_result_code p.attempts p.retry_count) _ h in
      choose due.0 due.2
    where
      choose : (b : Bool) → (if b then call_again p else finish p) ≡ ok r → IsDecision r
      choose true g = call_again-IsDecision p r g
      choose false g = finish-IsDecision p r g

  -- A reply of the evaluator is a decision: it asks for another call, at a time that it gives and
  -- without a final status, or it ends the calls with no wait, no time, and a final status that is SAFE,
  -- INJURED, UNAVAILABLE or UNREACHABLE.
  pub lambda_handler-IsDecision :
      (event : Value) (r : Reply) → lambda_handler event ≡ ok r → IsDecision r
  unfolding lambda_handler
  lambda_handler-IsDecision event r h =
      let parsed = >>=-eq-ok (parse_event event) evaluate h in
      evaluate-IsDecision parsed.0 r parsed.2
