-- ===== src/Finalizer/Handler/Guards.antt =====
-- What no run of the finalizer overwrites, also a run that raises.
use emergency_contact.Prelude.{
  ℕ, String, ◌≡◌, ◌∙◌, inl, inr, Bool, true, false, not, Option, none, some, List, [], ◌∷◌, arith,
}
use emergency_contact.Python.Results.{Result}
use emergency_contact.Python.Values.{Value, Fields}
use emergency_contact.Python.Actions.{
  Action, pure, lift, ◌>>=◌, IsPreorder, Keeps, >>=-Keeps, pure-Keeps, lift-Keeps, when-Keeps,
  if-Keeps,
}
use emergency_contact.Cycle.Finalize.{Summary}
use emergency_contact.Finalizer.Services.{Services, Tables, Updated, Untouched, Documented}
use emergency_contact.Finalizer.Event.{validate_event}
use emergency_contact.Finalizer.Handler.{
  is_running_row, is_open_row, set_cycle_status, set_sla_warning_flag, force_response_unreachable,
  delete_timer_rule, delete_timer_rules, query_responses, complete, handle_map_completed, warn,
  warn_if_late, handle_timer_30min, stop, force_all, tell_timeout, time_out, handle_timer_60min,
  dispatch, lambda_handler,
}

-- A row that passes the test stays as it is.
abbrev pub Kept : (Fields → Bool) → Option Fields → Option Fields → Type 0
Kept test before after = (row : Fields) → before ≡ some row → test row ≡ false → after ≡ some row

Kept-of_Updated :
    (test : Fields → Bool) (change : Fields → Fields) (before after : Option Fields)
    → Updated test change before after
    → Kept test before after
Kept-of_Updated test change before after (inl e) row h n = e ∙ h
Kept-of_Updated test change before after (inr (r, b, p, a)) row h n = absurd (ground arith)

module _ {W : Type 0} (t : Tables W) where
  -- A cycle that is not RUNNING keeps its row, and so does a response that is neither PENDING nor
  -- OTHER.
  pub record Guarded (before after : W) : Type 0 where
    pub cycles : (c : String) → Kept is_running_row (t.cycle_at before c) (t.cycle_at after c)
    pub responses :
        (c e : String) → Kept is_open_row (t.response_at before c e) (t.response_at after c e)

  Guarded-refl : (w : W) → Guarded w w
  Guarded-refl w = record { cycles = λ c row h n. h; responses = λ c e row h n. h }

  Guarded-trans : (u v w : W) → Guarded u v → Guarded v w → Guarded u w
  Guarded-trans u v w g k = record {
    cycles = λ c row h n. k.cycles c row (g.cycles c row h n) n;
    responses = λ c e row h n. k.responses c e row (g.responses c e row h n) n;
  }

  Guarded-IsPreorder : IsPreorder Guarded
  Guarded-IsPreorder = record { reflexive = Guarded-refl; transitive = Guarded-trans }

  Keeps-Untouched : {A : Type 0} (m : Action W A) → Untouched t m → Keeps Guarded m
  Keeps-Untouched m u = record {
    run = λ w. record {
      cycles = λ c row h n. (u w).0 c ∙ h;
      responses = λ c e row h n. (u w).1 c e ∙ h;
    };
  }

module _ {W : Type 0} (t : Tables W) (s : Services W) (d : Documented t s) where
  update_cycle-Keeps :
      (k : String) (change : Fields → Fields)
      → Keeps (Guarded t) (s.update_cycle k is_running_row change)
  update_cycle-Keeps k change = record {
    run = λ w. record {
      cycles = λ c.
          Kept-of_Updated is_running_row change _ _ (d.cycle_updated k is_running_row change w c);
      responses = λ c e row h n. d.cycle_only k is_running_row change w c e ∙ h;
    };
  }

  update_response-Keeps :
      (k i : String) (change : Fields → Fields)
      → Keeps (Guarded t) (s.update_response k i is_open_row change)
  update_response-Keeps k i change = record {
    run = λ w. record {
      cycles = λ c row h n. d.response_only k i is_open_row change w c ∙ h;
      responses = λ c e.
          Kept-of_Updated is_open_row change _ _ (d.response_updated k i is_open_row change w c e);
    };
  }

  keep :
      {A B : Type 0} (m : Action W A) (f : A → Action W B)
      → Keeps (Guarded t) m
      → ((a : A) → Keeps (Guarded t) (f a))
      → Keeps (Guarded t) (m >>= f)
  keep = >>=-Keeps (Guarded-IsPreorder t)

  keep_pure : {A : Type 0} (a : A) → Keeps (Guarded t) (pure a)
  keep_pure = pure-Keeps (Guarded-IsPreorder t)

  keep_lift : {A : Type 0} (r : Result A) → Keeps (Guarded t) (lift r)
  keep_lift = lift-Keeps (Guarded-IsPreorder t)

  set_cycle_status-Keeps :
      (c new : String) (at : Option String) → Keeps (Guarded t) (set_cycle_status s c new at)
  unfolding set_cycle_status
  set_cycle_status-Keeps c new none = update_cycle-Keeps c _
  set_cycle_status-Keeps c new (some now) = update_cycle-Keeps c _

  set_sla_warning_flag-Keeps : (c : String) → Keeps (Guarded t) (set_sla_warning_flag s c)
  unfolding set_sla_warning_flag
  set_sla_warning_flag-Keeps c = update_cycle-Keeps c _

  query_responses-Keeps : (c : String) → Keeps (Guarded t) (query_responses s c)
  unfolding query_responses
  query_responses-Keeps c = keep _ _ (Keeps-Untouched t _ (d.query_reads c)) (λ pages. keep_pure _)

  delete_timer_rule-Keeps : (n : String) → Keeps (Guarded t) (delete_timer_rule s n)
  unfolding delete_timer_rule
  delete_timer_rule-Keeps n =
      keep _ _ (Keeps-Untouched t _ (d.remove_elsewhere n))
        (λ removed. Keeps-Untouched t _ (d.delete_elsewhere n))

  delete_timer_rules-Keeps : (c : String) → Keeps (Guarded t) (delete_timer_rules s c)
  unfolding delete_timer_rules
  delete_timer_rules-Keeps c =
      keep _ _ (delete_timer_rule-Keeps _) (λ deleted. delete_timer_rule-Keeps _)

  complete-Keeps : (c : String) (summary : Summary) → Keeps (Guarded t) (complete s c summary)
  unfolding complete
  complete-Keeps c summary = keep _ _ (Keeps-Untouched t _ d.now_reads) (λ now.
      keep _ _ (set_cycle_status-Keeps c "COMPLETED" (some now)) (λ flipped.
        keep _ _ (when-Keeps (Guarded-IsPreorder t) flipped _ (delete_timer_rules-Keeps c))
          (λ deleted. keep_pure _)))

  handle_map_completed-Keeps : (c : String) → Keeps (Guarded t) (handle_map_completed s c)
  unfolding handle_map_completed
  handle_map_completed-Keeps c = keep _ _ (query_responses-Keeps c) (λ responses.
      keep _ _ (keep_lift _) (λ done.
        if-Keeps (not done) _ _ (keep _ _ (keep_lift _) (λ pending. keep_pure _))
          (keep _ _ (keep_lift _) (λ summary. complete-Keeps c summary))))

  warn-Keeps : (c : String) (responses : Value) → Keeps (Guarded t) (warn s c responses)
  unfolding warn
  warn-Keeps c responses = keep _ _ (Keeps-Untouched t _ (d.metric_elsewhere _ c)) (λ sent.
      keep _ _ (keep_lift _)
        (λ summary. keep _ _ (Keeps-Untouched t _ (d.publish_elsewhere _ _)) (λ told. keep_pure _)))

  warn_if_late-Keeps :
      (c : String) (responses : Value) → Keeps (Guarded t) (warn_if_late s c responses)
  unfolding warn_if_late
  warn_if_late-Keeps c responses = keep _ _ (keep_lift _) (λ late.
      if-Keeps (not late) _ _ (keep_pure _) (
        keep _ _ (set_sla_warning_flag-Keeps c)
          (λ flagged. if-Keeps (not flagged) _ _ (keep_pure _) (warn-Keeps c responses))))

  handle_timer_30min-Keeps : (c : String) → Keeps (Guarded t) (handle_timer_30min s c)
  unfolding handle_timer_30min
  handle_timer_30min-Keeps c = keep _ _ (Keeps-Untouched t _ (d.get_reads c)) (λ cycle.
      if-Keeps _ _ _ (keep_pure _)
        (keep _ _ (query_responses-Keeps c) (λ responses. warn_if_late-Keeps c responses)))

  stop-Keeps : (arn : Option String) → Keeps (Guarded t) (stop s arn)
  unfolding stop
  stop-Keeps none = keep_pure false
  stop-Keeps (some arn) = Keeps-Untouched t _ (d.stop_elsewhere arn)

  force_all-Keeps :
      (c : String) (rewrites : List (String × String)) → Keeps (Guarded t) (force_all s c rewrites)
  unfolding force_all force_response_unreachable
  force_all-Keeps c [] = keep_pure true
  force_all-Keeps c ((e, status) ∷ rewrites) =
      keep _ _ (update_response-Keeps c e _) (λ forced. force_all-Keeps c rewrites)

  tell_timeout-Keeps : (c : String) (stopped : ℕ) → Keeps (Guarded t) (tell_timeout s c stopped)
  unfolding tell_timeout
  tell_timeout-Keeps c stopped = keep _ _ (Keeps-Untouched t _ (d.metric_elsewhere _ c)) (λ sent.
      keep _ _ (query_responses-Keeps c) (λ responses. keep _ _ (keep_lift _) (λ summary.
        keep _ _ (Keeps-Untouched t _ (d.publish_elsewhere _ _))
          (λ told. keep _ _ (delete_timer_rules-Keeps c) (λ deleted. keep_pure _)))))

  time_out-Keeps : (c : String) (event : Fields) → Keeps (Guarded t) (time_out s c event)
  unfolding time_out
  time_out-Keeps c event = keep _ _ (stop-Keeps _) (λ stopped.
      keep _ _ (query_responses-Keeps c) (λ responses. keep _ _ (keep_lift _) (λ rewrites.
        keep _ _ (force_all-Keeps c rewrites) (λ forced.
          keep _ _ (Keeps-Untouched t _ d.now_reads) (λ now.
            keep _ _ (set_cycle_status-Keeps c "TIMEOUT" (some now))
              (λ flipped. if-Keeps (not flipped) _ _ (keep_pure _) (tell_timeout-Keeps c _)))))))

  handle_timer_60min-Keeps :
      (c : String) (event : Fields) → Keeps (Guarded t) (handle_timer_60min s c event)
  unfolding handle_timer_60min
  handle_timer_60min-Keeps c event =
      keep _ _ (Keeps-Untouched t _ (d.get_reads c))
        (λ cycle. if-Keeps _ _ _ (keep_pure _) (time_out-Keeps c event))

  dispatch-Keeps : (e : Value × String × Fields) → Keeps (Guarded t) (dispatch s e)
  unfolding dispatch
  dispatch-Keeps (trigger, c, event) =
      if-Keeps _ _ _ (handle_map_completed-Keeps c)
        (if-Keeps _ _ _ (handle_timer_30min-Keeps c) (handle_timer_60min-Keeps c event))

  -- Whatever the event is, and also where the run raises: the finalizer leaves every cycle that is not
  -- RUNNING as it is, and every response that is neither PENDING nor OTHER. The services are any that
  -- act on the tables as documented.
  pub lambda_handler-Guarded : (event : Value) (w : W) → Guarded t w (lambda_handler s event w).1
  unfolding lambda_handler
  lambda_handler-Guarded event = (keep _ _ (keep_lift (validate_event event)) dispatch-Keeps).run
