-- ===== src/Calls/Ending/Event.antt =====
-- The event of a call's end: `_normalize_connect_event` and `_parse_event` of
-- backend/lambdas/call_end_handler/handler.py. `int`, of a text, is a parameter.
use emergency_contact.Prelude.{
  String, Bool, true, false, not, Option, none, some, List, [], ◌∷◌, if◌then◌else◌,
}
use emergency_contact.Prelude.Int.{ℤ, pos, ltb_ℤ}
use emergency_contact.Python.Results.{
  Result, ok, err, value_error, attribute_error, raise_if, ◌>>=◌, ◌>>◌,
}
use emergency_contact.Python.Values.{
  Value, bool, int, decimal, str, dict, Fields, end, field, get, in_set, is_truthy, truncate,
}
use emergency_contact.Connect.CallResult.{valid_call_result_codes}

abbrev pub required_input_keys : List String
required_input_keys =
    "contactId" ∷ "cycleId" ∷ "employeeId" ∷ "attempt" ∷ "callResultCode" ∷ "taskToken" ∷ []

-- What `_parse_event` returns.
pub record Parsed : Type 0 where
  pub contact_id : Value
  pub cycle_id : Value
  pub employee_id : Value
  pub attempt : ℤ
  pub call_result_code : Value
  pub task_token : Value

-- v or {}, of which `get` is then called
unfoldable pub or_empty : Value → Result Fields
or_empty (dict d) = ok d
or_empty v = if is_truthy v then err attribute_error else ok end

unfoldable pub flatten : Fields → Fields → Result Fields
unfolding or_empty
flatten details contact_data = do
  attributes ← or_empty (get "Attributes" contact_data)
  parameters ← or_empty (get "Parameters" details)
  ok (
      field "contactId" (get "ContactId" contact_data) (
        field "cycleId" (get "cycleId" attributes) (
          field "employeeId" (get "employeeId" attributes) (
            field "attempt" (get "attempt" attributes) (
              field "taskToken" (get "taskToken" attributes)
                (field "callResultCode" (get "callResultCode" parameters) end))))))

-- `event` where a step of the nested shape is no dict.
unfoldable pub normalize_contact_data : Fields → Fields → Value → Result Fields
normalize_contact_data event details (dict contact_data) = flatten details contact_data
normalize_contact_data event details _ = ok event

unfoldable pub normalize_details : Fields → Value → Result Fields
normalize_details event (dict details) =
    normalize_contact_data event details (get "ContactData" details)
normalize_details event _ = ok event

unfoldable pub normalize_connect_event : Fields → Result Fields
normalize_connect_event event = normalize_details event (get "Details" event)

unfoldable pub all_truthy : Fields → List String → Bool
all_truthy event [] = true
all_truthy event (k ∷ ks) = if is_truthy (get k event) then all_truthy event ks else false

unfoldable pub event_dict : Value → Result Fields
event_dict (dict d) = ok d
event_dict _ = err value_error

unfoldable pub parsed_int : Option ℤ → Result ℤ
parsed_int none = err value_error
parsed_int (some n) = ok n

module _ (int_of_text : String → Option ℤ) where
  -- int(v); its TypeError becomes a ValueError.
  unfoldable pub to_int : Value → Result ℤ
  to_int (int n) = ok n
  to_int (bool true) = ok (pos 1)
  to_int (bool false) = ok (pos 0)
  to_int (decimal n k) = ok (truncate n k)
  to_int (str s) = parsed_int (int_of_text s)
  to_int _ = err value_error

  unfoldable pub parse_event : Value → Result Parsed
  parse_event raw = do
    outer ← event_dict raw
    event ← normalize_connect_event outer
    raise_if (not (all_truthy event required_input_keys)) value_error
    attempt ← to_int (get "attempt" event)
    raise_if (ltb_ℤ attempt (pos 1)) value_error
    valid ← in_set (get "callResultCode" event) valid_call_result_codes
    raise_if (not valid) value_error
    ok (record {
      contact_id = get "contactId" event;
      cycle_id = get "cycleId" event;
      employee_id = get "employeeId" event;
      attempt = attempt;
      call_result_code = get "callResultCode" event;
      task_token = get "taskToken" event;
    })
