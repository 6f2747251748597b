-- ===== src/Finalizer/Handler.antt =====
-- backend/lambdas/cycle_finalizer/handler.py: the three triggers that may end a cycle. The log
-- messages are left out.
pub mod Guards
use Prim.Native.String.{◌++◌}
use mathlib.Core.List.{◌++◌ as append}
use emergency_contact.Prelude.{
  ℕ, String, Bool, true, false, not, ◌||◌, Option, none, some, List, [], ◌∷◌, length, str_eq,
  if◌then◌else◌,
}
use emergency_contact.Python.Values.{
  Value, null, bool, str, list, dict, Items, nil, cons, Fields, end, field, get, in_set, eq_text,
}
use emergency_contact.Cycle.Finalize.{
  Summary, is_cycle_completed, count_pending_responses, compute_summary, apply_timeout,
  is_first_dispatch_incomplete,
}
use emergency_contact.Python.Actions.{Action, pure, lift, when, ◌>>=◌}
use emergency_contact.Aws.Tables.{set_field}
use emergency_contact.Finalizer.Event.{validate_event}
use emergency_contact.Finalizer.Services.{Notice, Services}

-- What the handler returns, by its "status".
pub data Reply : Type 0 where
  incomplete : ℕ → Reply
  completed : Summary → Reply
  already_completed : Summary → Reply
  no_op no_warning_needed : Reply
  warning_applied : Summary → Reply
  already_terminal : Reply
  timeout_applied : ℕ → Summary → Reply

-- "#s = :running"
unfoldable pub is_running_row : Fields → Bool
is_running_row row = eq_text (get "status" row) "RUNNING"

-- "voiceStatus = :pending OR voiceStatus = :other"
unfoldable pub is_open_row : Fields → Bool
is_open_row row =
    eq_text (get "voiceStatus" row) "PENDING" || eq_text (get "voiceStatus" row) "OTHER"

abbrev pub rows_value : List Fields → Items
rows_value [] = nil
rows_value (row ∷ rows) = cons (dict row) (rows_value rows)

abbrev pub concat : List (List Fields) → List Fields
concat [] = []
concat (page ∷ pages) = append page (concat pages)

-- cycle is None or cycle.get("status") != "RUNNING"
abbrev pub is_over : Option Fields → Bool
is_over none = true
is_over (some cycle) = not (is_running_row cycle)

-- isinstance(v, str) and v
abbrev pub text_or_none : Value → Option String
text_or_none (str s) = if str_eq s "" then none else some s
text_or_none _ = none

module _ {W : Type 0} (s : Services W) where
  unfoldable pub query_responses : String → Action W Value
  query_responses cycle_id = do
    pages ← s.query_pages cycle_id
    pure (list (rows_value (concat pages)))

  unfoldable pub set_cycle_status : String → String → Option String → Action W Bool
  set_cycle_status cycle_id new_status none =
      s.update_cycle cycle_id is_running_row (set_field "status" (str new_status))
  set_cycle_status cycle_id new_status (some completed_at) =
      s.update_cycle cycle_id is_running_row (λ row.
        set_field "completedAt" (str completed_at) (set_field "status" (str new_status) row))

  unfoldable pub set_sla_warning_flag : String → Action W Bool
  set_sla_warning_flag cycle_id =
      s.update_cycle cycle_id is_running_row (set_field "slaWarning30min" (bool true))

  unfoldable pub force_response_unreachable : String → String → Action W Bool
  force_response_unreachable cycle_id employee_id =
      s.update_response cycle_id employee_id is_open_row
        (set_field "voiceStatus" (str "UNREACHABLE"))

  unfoldable pub delete_timer_rule : String → Action W Bool
  delete_timer_rule rule_name = do removed ← s.remove_targets rule_name; s.delete_rule rule_name

  unfoldable pub delete_timer_rules : String → Action W Bool
  delete_timer_rules cycle_id = do
    deleted ← delete_timer_rule ("cycle-30min" ++ "-" ++ cycle_id)
    delete_timer_rule ("cycle-60min" ++ "-" ++ cycle_id)

  unfoldable pub complete : String → Summary → Action W Reply
  complete cycle_id summary = do
    now ← s.utc_now_iso
    flipped ← set_cycle_status cycle_id "COMPLETED" (some now)
    deleted ← when flipped (delete_timer_rules cycle_id)
    pure (if flipped then completed summary else already_completed summary)

  unfoldable pub handle_map_completed : String → Action W Reply
  handle_map_completed cycle_id = do
    responses ← query_responses cycle_id
    done ← lift (is_cycle_completed responses)
    if not done
        then (do pending ← lift (count_pending_responses responses); pure (incomplete pending))
        else (do summary ← lift (compute_summary responses); complete cycle_id summary)

  unfoldable pub warn : String → Value → Action W Reply
  warn cycle_id responses = do
    sent ← s.put_metric "SlaWarning30Min" cycle_id
    summary ← lift (compute_summary responses)
    told ← s.publish ("[SafetyConfirmation] SLA 30min warning (" ++ cycle_id ++ ")") (record {
      cycle_id = cycle_id;
      event = "SLA_WARNING_30MIN";
      summary = summary;
      stopped_responses = none;
    })
    pure (warning_applied summary)

  unfoldable pub warn_if_late : String → Value → Action W Reply
  warn_if_late cycle_id responses = do
    late ← lift (is_first_dispatch_incomplete responses)
    if not late then pure no_warning_needed else (do
      flagged ← set_sla_warning_flag cycle_id
      if not flagged then pure no_op else warn cycle_id responses)

  unfoldable pub handle_timer_30min : String → Action W Reply
  handle_timer_30min cycle_id = do
    cycle ← s.get_cycle cycle_id
    if is_over cycle
        then pure no_op
        else (do responses ← query_responses cycle_id; warn_if_late cycle_id responses)

  unfoldable pub stop : Option String → Action W Bool
  stop none = pure false
  stop (some execution_arn) = s.stop_execution execution_arn

  unfoldable pub force_all : String → List (String × String) → Action W Bool
  force_all cycle_id [] = pure true
  force_all cycle_id ((employee_id, status) ∷ rewrites) = do
    forced ← force_response_unreachable cycle_id employee_id
    force_all cycle_id rewrites

  unfoldable pub tell_timeout : String → ℕ → Action W Reply
  tell_timeout cycle_id stopped = do
    sent ← s.put_metric "CycleTimeout" cycle_id
    responses_after ← query_responses cycle_id
    summary ← lift (compute_summary responses_after)
    told ← s.publish ("[SafetyConfirmation] Cycle timeout (" ++ cycle_id ++ ")") (record {
      cycle_id = cycle_id;
      event = "CYCLE_TIMEOUT_60MIN";
      summary = summary;
      stopped_responses = some stopped;
    })
    deleted ← delete_timer_rules cycle_id
    pure (timeout_applied stopped summary)

  unfoldable pub time_out : String → Fields → Action W Reply
  time_out cycle_id event = do
    stopped ← stop (text_or_none (get "executionArn" event))
    responses ← query_responses cycle_id
    rewrites ← lift (apply_timeout responses)
    forced ← force_all cycle_id rewrites
    now ← s.utc_now_iso
    flipped ← set_cycle_status cycle_id "TIMEOUT" (some now)
    if not flipped then pure already_terminal else tell_timeout cycle_id (length rewrites)

  unfoldable pub handle_timer_60min : String → Fields → Action W Reply
  handle_timer_60min cycle_id event = do
    cycle ← s.get_cycle cycle_id
    if is_over cycle then pure no_op else time_out cycle_id event

  unfoldable pub dispatch : Value × String × Fields → Action W Reply
  dispatch (trigger, cycle_id, event) =
      if eq_text trigger "MAP_COMPLETED"
      then handle_map_completed cycle_id
      else if eq_text trigger "TIMER_30MIN"
      then handle_timer_30min cycle_id
      else handle_timer_60min cycle_id event

  unfoldable pub lambda_handler : Value → Action W Reply
  lambda_handler event = do valid ← lift (validate_event event); dispatch valid
