-- ===== src/Examples/Contacts.antt =====
-- The two steps of an incoming call, over a table in memory.
use emergency_contact.Prelude.{
  String, ◌≡◌, ◌≢◌, refl, Bool, true, false, none, some, [], str_eq, eq_iff,
}
use emergency_contact.Prelude.Int.{pos}
use emergency_contact.Python.Results.{ok, err, client_error}
use emergency_contact.Python.Values.{Value, int, str, dict, Fields, end, field}
use emergency_contact.Python.Actions.{◌>>=◌, continue, lift, pure}
use emergency_contact.Aws.Tables.{Table, not_exists}
use emergency_contact.Aws.Rows.{Rows}
use emergency_contact.Aws.Preserved.{Preserved}
use emergency_contact.Inbound.Moments.{Moment}
use emergency_contact.Inbound.Selection as Selection
use emergency_contact.Inbound.Selection.{Flow, not_registered}
use emergency_contact.Inbound.Events.{Identify, flow_name}
use emergency_contact.Inbound.Items as Items
use emergency_contact.Inbound.Items.{identified, finalize_row}
use emergency_contact.Inbound.Handler as Handler
use emergency_contact.Inbound.Handler.{
  Services, Library, lambda_handler, identify, finalize_inbound_contact,
}
use emergency_contact.Inbound.Handler.Responses as Responses
use emergency_contact.Inbound.Handler.Responses.{Has, lambda_handler-Kept}
use emergency_contact.Inbound.Handler.Accepted as Accepted
use emergency_contact.Inbound.Handler.Accepted.{IsRecorded, flow_of, identify-Accepted}
use emergency_contact.Examples.Memory.{
  same_pair, same_pair_eq, Memory, memory_table, memory_rows, answer, update-Writes,
}

abbrev noon : Moment
noon = record { local = 63000000000000000; offset = some (pos 0) }

abbrev lib : Library
lib = record {
  fromisoformat = λ s. none;
  format_iso = λ t. "2026-01-01T12:00:00Z";
  format_yyyymm = λ t. "202601";
}

module _ {W K : Type 0} where
  -- A table that is not written.
  abbrev still : Table W K
  still = record {
    get_item = λ k w. (ok none, w);
    put_item = λ k test row w. (ok false, w);
    update_item = λ k test change w. (ok false, w);
  }

abbrev contact_key : String → Fields
contact_key id = field "contactId" (str id) end

abbrev Contacts : Type 0
Contacts = Memory str_eq contact_key

abbrev stranger : Services Contacts
stranger = record {
  utc_now = λ w. (ok noon, w);
  query_employees = λ phone w. (ok [], w);
  query_cycles = λ status w. (ok [], w);
  contacts = memory_table str_eq contact_key;
  responses = still;
  write_audit_log = λ target phone extra w. (ok tt, w);
}

abbrev contact_rows : Rows Contacts String
contact_rows = memory_rows str_eq contact_key

answer_raises :
    (w : Contacts) (k : String) (change : Fields → Fields) (a b : Bool)
    → (answer str_eq contact_key w k change a b).0
      ≢ err (client_error "ConditionalCheckFailedException")
answer_raises w k change false b q = cc
answer_raises w k change true false q = cc
answer_raises w k change true true q = cc

stranger-Documented : Accepted.Documented contact_rows stranger
stranger-Documented = record {
  puts = λ k test row.
      update-Writes str_eq contact_key (λ a b h. (eq_iff a b).0 h) k test (λ old. row);
  updates = update-Writes str_eq contact_key (λ a b h. (eq_iff a b).0 h);
  update_raises = λ k test change w. answer_raises w k change (str_eq k k) (test (w.0 k));
  now_elsewhere = λ w j. refl;
  employees_elsewhere = λ phone w j. refl;
  cycles_elsewhere = λ status w j. refl;
  log_elsewhere = λ target phone extra w j. refl;
}

abbrev caller : Identify
caller = record { contact_id = "c1"; caller_number = "+81900000000" }

abbrev no_contacts : Contacts
no_contacts = (λ k. none, 0)

identifies : (identify stranger lib 30 caller no_contacts).0 ≡ ok (identified not_registered none)
unfolding identify Handler.lookup_employee_by_phone Items.first_visible Items.matched_id
    Handler.classify Handler.decide Selection.decide_inbound_flow
    Handler.put_provisional_inbound_contact Items.contact_item Items.audit_extra
    Items.identify_reply ◌>>=◌ continue lift pure not_exists
identifies = refl

identify-Accepted_example :
    (flow : Flow) × (flow_of (identified not_registered none) ≡ some flow)
    × ((row : Fields) × (contact_rows.row_at (identify stranger lib 30 caller no_contacts).1 "c1"
          ≡ some row)
        × IsRecorded caller flow row)
    × ((finalize_inbound_contact stranger lib 30 "c1"
          (flow_name flow)
          finalize_row
          (identify stranger lib 30 caller no_contacts).1).0
        ≢ err (client_error "ConditionalCheckFailedException"))
identify-Accepted_example =
    identify-Accepted contact_rows stranger stranger-Documented lib 30 caller finalize_row
      no_contacts (identify stranger lib 30 caller no_contacts).1 (identified not_registered none)
      refl identifies refl

abbrev response_key : String × String → Fields
response_key k = field "cycleId" (str k.0) (field "employeeId" (str k.1) end)

abbrev ResponseWorld : Type 0
ResponseWorld = Memory same_pair response_key

abbrev called_back : Services ResponseWorld
called_back = record {
  utc_now = λ w. (ok noon, w);
  query_employees = λ phone w. (ok [], w);
  query_cycles = λ status w. (ok [], w);
  contacts = still;
  responses = memory_table same_pair response_key;
  write_audit_log = λ target phone extra w. (ok tt, w);
}

abbrev response_rows : Rows ResponseWorld (String × String)
response_rows = memory_rows same_pair response_key

called_back-Documented : Responses.Documented response_rows called_back
called_back-Documented = record {
  puts = λ k test row. update-Writes same_pair response_key same_pair_eq k test (λ old. row);
  updates = update-Writes same_pair response_key same_pair_eq;
  now_elsewhere = λ w j. refl;
  employees_elsewhere = λ phone w j. refl;
  cycles_elsewhere = λ status w j. refl;
  put_elsewhere = λ k test row w j. refl;
  update_elsewhere = λ k test change w j. refl;
  log_elsewhere = λ target phone extra w j. refl;
}

abbrev finalize_event : Value
finalize_event = dict (
    field "step" (str "finalize") (
      field "contactId" (str "c1") (
        field "flow" (str "ACTIVE_CYCLE")
          (field "employeeId" (str "E1") (field "cycleId" (str "C1") end)))))

abbrev called_once : ResponseWorld
called_once = (
  λ k. some (
      field "cycleId" (str "C1")
        (field "employeeId" (str "E1") (field "callAttempts" (int (pos 2)) end))),
  0,
)

lambda_handler-Kept_example :
    Preserved response_rows
      (Has (str "C1") "callAttempts" (int (pos 2)))
      called_once
      (lambda_handler called_back lib 30 finalize_event called_once).1
lambda_handler-Kept_example =
    lambda_handler-Kept response_rows called_back called_back-Documented lib 30 (str "C1")
      (int (pos 2)) "callAttempts" refl finalize_event called_once
