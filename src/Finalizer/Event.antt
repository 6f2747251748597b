-- ===== src/Finalizer/Event.antt =====
-- The event of the finalizer: `_validate_event` of backend/lambdas/cycle_finalizer/handler.py.
use emergency_contact.Prelude.{String, not, List, [], ◌∷◌, str_eq, if◌then◌else◌}
use emergency_contact.Python.Results.{Result, ok, err, value_error, raise_if, ◌>>=◌, ◌>>◌}
use emergency_contact.Python.Values.{Value, str, dict, Fields, get, in_set}

abbrev pub valid_triggers : List String
valid_triggers = "MAP_COMPLETED" ∷ "TIMER_30MIN" ∷ "TIMER_60MIN" ∷ []

require_dict : Value → Result Fields
require_dict (dict d) = ok d
require_dict _ = err value_error

require_id : Value → Result String
require_id (str s) = if str_eq s "" then err value_error else ok s
require_id _ = err value_error

-- The trigger is one of the texts, and the id a text that is not empty.
unfoldable pub validate_event : Value → Result (Value × String × Fields)
unfolding require_dict require_id
validate_event event = do
  e ← require_dict event
  valid ← in_set (get "trigger" e) valid_triggers
  raise_if (not valid) value_error
  cycle_id ← require_id (get "cycleId" e)
  ok (get "trigger" e, cycle_id, e)
