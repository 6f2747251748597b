-- ===== src/Calls/Ending.antt =====
-- backend/lambdas/call_end_handler/handler.py: the end of a call. The log messages are left out.
pub mod Event
use emergency_contact.Prelude.{String, Option, Bool, false}
use emergency_contact.Prelude.Int.{ℤ}
use emergency_contact.Python.Values.{Value, bool, str, dict, Fields, end, field}
use emergency_contact.Python.Actions.{Action, pure, lift, ◌>>=◌}
use emergency_contact.Aws.Tables.{set_field, not_exists}
use emergency_contact.Calls.Services.{Services}
use emergency_contact.Calls.Ending.Event.{Parsed, parse_event}

-- The status is "ok".
pub record Reply : Type 0 where
  pub contact_id : Value
  pub call_result_code : Value

-- SET callResultCode = :code, endedAt = :now
unfoldable pub end_call : Value → String → Fields → Fields
end_call code now row = set_field "endedAt" (str now) (set_field "callResultCode" code row)

unfoldable pub output_of : Parsed → Value
output_of parsed = dict (
    field "retry" (bool false)
      (field "contactId" parsed.contact_id (field "callResultCode" parsed.call_result_code end)))

module _ {W : Type 0} (s : Services W) where
  -- The answer is false where the result code was set before.
  unfoldable pub record_call_end : Parsed → Action W Bool
  record_call_end parsed = do
    now_iso ← s.utc_now_iso
    s.responses.update_item (parsed.cycle_id, parsed.employee_id) (not_exists "callResultCode")
        (end_call parsed.call_result_code now_iso)

  unfoldable pub send_task_success : Parsed → Action W (Unit {0})
  send_task_success parsed = s.send_task_success parsed.task_token (output_of parsed)

  unfoldable pub end_parsed : Parsed → Action W Reply
  end_parsed parsed = do
    recorded ← record_call_end parsed
    released ← send_task_success parsed
    pure (record { contact_id = parsed.contact_id; call_result_code = parsed.call_result_code })

  unfoldable pub lambda_handler : (String → Option ℤ) → Value → Action W Reply
  lambda_handler int_of_text event = do
    parsed ← lift (parse_event int_of_text event)
    end_parsed parsed
