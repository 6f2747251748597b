-- ===== src/Calls/Dispatch/Event.antt =====
-- The event of a dispatch: `_parse_event` of backend/lambdas/connect_dispatcher/handler.py.
use emergency_contact.Prelude.{String, true, false, not, List, [], ◌∷◌}
use emergency_contact.Prelude.Int.{ℤ, pos, ltb_ℤ}
use emergency_contact.Python.Results.{Result, ok, err, value_error, raise_if, ◌>>=◌, ◌>>◌}
use emergency_contact.Python.Values.{Value, bool, int, get, lookup}
use emergency_contact.Aws.Tables.{is_missing}
use emergency_contact.Calls.Ending.Event.{event_dict, all_truthy}

-- _REQUIRED_INPUT_KEYS without "attempt".
abbrev pub required_texts : List String
required_texts = "cycleId" ∷ "employeeId" ∷ "phoneNumber" ∷ "taskToken" ∷ []

-- What `_parse_event` returns. A Boolean is an integer too.
pub record Parsed : Type 0 where
  pub cycle_id : Value
  pub employee_id : Value
  pub phone_number : Value
  pub attempt : Value
  pub task_token : Value

-- isinstance(attempt, int)
unfoldable pub int_value : Value → Result ℤ
int_value (int n) = ok n
int_value (bool true) = ok (pos 1)
int_value (bool false) = ok (pos 0)
int_value _ = err value_error

unfoldable pub parse_event : Value → Result Parsed
parse_event raw = do
  event ← event_dict raw
  raise_if (not (all_truthy event required_texts)) value_error
  raise_if (is_missing (lookup "attempt" event)) value_error
  attempt ← int_value (get "attempt" event)
  raise_if (ltb_ℤ attempt (pos 1)) value_error
  ok (record {
    cycle_id = get "cycleId" event;
    employee_id = get "employeeId" event;
    phone_number = get "phoneNumber" event;
    attempt = get "attempt" event;
    task_token = get "taskToken" event;
  })
