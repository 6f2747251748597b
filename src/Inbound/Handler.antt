-- ===== src/Inbound/Handler.antt =====
-- backend/lambdas/inbound_handler/handler.py: an employee calls in. The log messages are left out, but
-- for the audit log.
pub mod Responses
pub mod Accepted
use emergency_contact.Prelude.{
  String, Bool, true, false, not, Option, none, some, List, [], ◌∷◌, ◌++◌, map, if◌then◌else◌, ℕ,
}
use emergency_contact.Prelude.Int.{pos}
use emergency_contact.Python.Results.{Result, ok, err, value_error, client_error, raise_if}
use emergency_contact.Python.Values.{
  Value, bool, int, str, list, dict, Fields, get, from_list, eq_text,
}
use emergency_contact.Python.Actions.{Action, pure, lift, ◌>>=◌}
use emergency_contact.Aws.Tables.{Table, not_exists, always}
use emergency_contact.Inbound.Moments.{Moment}
use emergency_contact.Inbound.Selection.{Flow, active_cycle, decide_inbound_flow}
use emergency_contact.Inbound.Events.{
  Identify, Finalize, active, other, normalize_connect_event, parse_identify_event,
  parse_finalize_event,
}
use emergency_contact.Inbound.Items.{
  Reply, identified, finalized_active, finalized, first_visible, matched_id, contact_item,
  audit_extra, identify_reply, finalize_active_row, finalize_row, has_flow, inbound_key,
  new_response, add_inbound,
}

-- The calls of the handler. The two queries deliver the items of their answer: those of a telephone
-- number, and the latest ten cycles of a status, the latest first.
pub record Services (W : Type 0) : Type 0 where
  pub utc_now : Action W Moment
  pub query_employees : String → Action W (List Fields)
  pub query_cycles : String → Action W (List Fields)
  pub contacts : Table W String
  pub responses : Table W (String × String)
  pub write_audit_log : String → String → Fields → Action W (Unit {0})

-- `datetime.fromisoformat`, `isoformat` with its "Z", and `strftime("%Y%m")`.
pub record Library : Type 0 where
  pub fromisoformat : String → Option Moment
  pub format_iso : Moment → String
  pub format_yyyymm : Moment → String

abbrev pub cycle_query_statuses : List String
cycle_query_statuses = "RUNNING" ∷ "COMPLETED" ∷ "TIMEOUT" ∷ "START_FAILED" ∷ []

unfoldable pub require_event : Value → Result Fields
require_event (dict d) = ok d
require_event _ = err value_error

-- A refused condition that the code does not catch.
unfoldable pub conditional_check_failed : Bool → Result (Unit {0})
conditional_check_failed answered =
    raise_if (not answered) (client_error "ConditionalCheckFailedException")

module _ {W : Type 0} (s : Services W) (lib : Library) (window : ℕ) where
  unfoldable pub lookup_employee_by_phone : String → Action W (Option Fields)
  lookup_employee_by_phone caller_number = do
    items ← s.query_employees caller_number
    pure (first_visible items)

  unfoldable pub query_statuses : List String → Action W (List Fields)
  query_statuses [] = pure []
  query_statuses (status ∷ statuses) = do
    found ← s.query_cycles status
    rest ← query_statuses statuses
    pure (found ++ rest)

  unfoldable pub query_recent_cycles : Action W (List Fields)
  query_recent_cycles = query_statuses cycle_query_statuses

  unfoldable pub decide : Bool → List Fields → Moment → Result (Flow × Value)
  decide employee_matched cycles now =
      decide_inbound_flow lib.fromisoformat (bool employee_matched)
        (list (from_list (map dict cycles))) now (int (pos window))

  -- The cycles are read for an employee that was found.
  unfoldable pub classify : Option Fields → Moment → Action W (Flow × Value)
  classify none now = lift (decide false [] now)
  classify (some employee) now = do cycles ← query_recent_cycles; lift (decide true cycles now)

  -- The answer is false where the contact has its row.
  unfoldable pub put_provisional_inbound_contact :
      Identify → String → Flow → Value → Value → Action W Bool
  put_provisional_inbound_contact p received_at flow employee_id cycle_id =
      s.contacts.put_item p.contact_id (not_exists "contactId")
        (contact_item p received_at flow employee_id cycle_id)

  unfoldable pub identify : Identify → Action W Reply
  identify p = do
    now ← s.utc_now
    employee ← lookup_employee_by_phone p.caller_number
    employee_id ← lift (matched_id employee)
    decision ← classify employee now
    put ← put_provisional_inbound_contact p (lib.format_iso now) decision.0 employee_id decision.1
    written ←
        s.write_audit_log p.contact_id p.caller_number
          (audit_extra decision.0 employee_id decision.1)
    lift (identify_reply decision.0 employee_id decision.1)

  unfoldable pub append_inbound_to_response : String → String → Action W Bool
  append_inbound_to_response cycle_id employee_id = do
    put ←
        s.responses.put_item (cycle_id, employee_id) (not_exists "cycleId")
          (new_response cycle_id employee_id)
    s.responses.update_item (cycle_id, employee_id) always add_inbound

  unfoldable pub finalize_inbound_contact :
      String → String → (Fields → Fields) → Action W (Unit {0})
  finalize_inbound_contact contact_id flow change = do
    answered ← s.contacts.update_item contact_id (has_flow flow) change
    lift (conditional_check_failed answered)

  unfoldable pub finalize : Finalize → Moment → Action W Reply
  finalize (active contact_id employee_id cycle_id) now = do
    appended ← append_inbound_to_response cycle_id employee_id
    written ← finalize_inbound_contact contact_id "ACTIVE_CYCLE" (
        finalize_active_row (inbound_key (lib.format_yyyymm now) employee_id contact_id ".wav")
          (inbound_key (lib.format_yyyymm now) employee_id contact_id ".json") employee_id)
    pure (finalized_active contact_id employee_id cycle_id)
  finalize (other contact_id flow) now = do
    written ← finalize_inbound_contact contact_id flow finalize_row
    pure (finalized contact_id flow)

  unfoldable pub handle_identify : Fields → Action W Reply
  handle_identify event = do parsed ← lift (parse_identify_event event); identify parsed

  unfoldable pub handle_finalize : Fields → Action W Reply
  handle_finalize event = do
    parsed ← lift (parse_finalize_event event)
    now ← s.utc_now
    finalize parsed now

  unfoldable pub dispatch : Fields → Action W Reply
  dispatch flat =
      if eq_text (get "step" flat) "identify"
      then handle_identify flat
      else if eq_text (get "step" flat) "finalize"
      then handle_finalize flat
      else lift (err value_error)

  unfoldable pub lambda_handler : Value → Action W Reply
  lambda_handler raw = do
    event ← lift (require_event raw)
    flat ← lift (normalize_connect_event event)
    dispatch flat
