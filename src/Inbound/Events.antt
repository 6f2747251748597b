-- ===== src/Inbound/Events.antt =====
-- The events of the inbound handler: `_normalize_connect_event`, `_parse_identify_event` and
-- `_parse_finalize_event` of backend/lambdas/inbound_handler/handler.py.
use Prim.Native.Char.{code}
use emergency_contact.Prelude.{String, Bool, false, not, List, [], ◌∷◌, ◌==◌, if◌then◌else◌}
use emergency_contact.Python.Results.{Result, ok, err, value_error, raise_if, ◌>>=◌, ◌>>◌}
use emergency_contact.Python.Values.{Value, str, dict, Fields, end, field, get, in_set, eq_text}
use emergency_contact.Calls.Ending.Event.{or_empty}
use emergency_contact.Inbound.Selection.{
  Flow, not_registered, no_cycle, cycle_terminated, active_cycle, require_text,
}

-- The texts of the flows.
abbrev pub flow_name : Flow → String
flow_name not_registered = "NOT_REGISTERED"
flow_name no_cycle = "NO_CYCLE"
flow_name cycle_terminated = "CYCLE_TERMINATED"
flow_name active_cycle = "ACTIVE_CYCLE"

abbrev pub valid_flows : List String
valid_flows = "NOT_REGISTERED" ∷ "NO_CYCLE" ∷ "CYCLE_TERMINATED" ∷ "ACTIVE_CYCLE" ∷ []

pub record Identify : Type 0 where
  pub contact_id : String
  pub caller_number : String

-- The employee and the cycle are there where the flow is ACTIVE_CYCLE.
pub data Finalize : Type 0 where
  active : (contact_id employee_id cycle_id : String) → Finalize
  other : (contact_id flow : String) → Finalize

unfoldable pub flatten : Fields → Fields → Result Fields
unfolding or_empty
flatten details contact_data = do
  attributes ← or_empty (get "Attributes" contact_data)
  parameters ← or_empty (get "Parameters" details)
  customer_endpoint ← or_empty (get "CustomerEndpoint" contact_data)
  ok (
      field "step" (get "step" parameters) (
        field "contactId" (get "ContactId" contact_data) (
          field "callerNumber" (get "Address" customer_endpoint) (
            field "flow" (get "flow" attributes) (
              field "employeeId" (get "employeeId" attributes)
                (field "cycleId" (get "cycleId" attributes) end))))))

-- `event` where a step of the nested shape is no dict.
unfoldable pub normalize_contact_data : Fields → Fields → Value → Result Fields
normalize_contact_data event details (dict contact_data) = flatten details contact_data
normalize_contact_data event details _ = ok event

unfoldable pub normalize_details : Fields → Value → Result Fields
normalize_details event (dict details) =
    normalize_contact_data event details (get "ContactData" details)
normalize_details event _ = ok event

unfoldable pub normalize_connect_event : Fields → Result Fields
normalize_connect_event event = normalize_details event (get "Details" event)

-- s.startswith("+")
unfoldable pub starts_with_plus : String → Bool
starts_with_plus String.[] = false
starts_with_plus (String.◌∷◌ c s) = code c == 43

unfoldable pub parse_identify_event : Fields → Result Identify
parse_identify_event event = do
  contact_id ← require_text (get "contactId" event)
  caller_number ← require_text (get "callerNumber" event)
  raise_if (not (starts_with_plus caller_number)) value_error
  ok (record { contact_id = contact_id; caller_number = caller_number })

unfoldable pub parse_active : Fields → String → Result Finalize
parse_active event contact_id = do
  employee_id ← require_text (get "employeeId" event)
  cycle_id ← require_text (get "cycleId" event)
  ok (active contact_id employee_id cycle_id)

-- One of the other flows.
unfoldable pub parse_other : Value → String → Result Finalize
parse_other (str flow) contact_id = ok (other contact_id flow)
parse_other _ contact_id = err value_error

unfoldable pub parse_finalize_event : Fields → Result Finalize
parse_finalize_event event = do
  contact_id ← require_text (get "contactId" event)
  valid ← in_set (get "flow" event) valid_flows
  raise_if (not valid) value_error
  if eq_text (get "flow" event) "ACTIVE_CYCLE"
      then parse_active event contact_id
      else parse_other (get "flow" event) contact_id
