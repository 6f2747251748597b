-- ===== src/Examples/Logins.antt =====
-- A login to an account with failures, over a table in memory.
use emergency_contact.Prelude.{String, none, some, str_eq}
use emergency_contact.Prelude.Int.{pos}
use emergency_contact.Python.Results.{ok}
use emergency_contact.Python.Values.{int, str, list, nil, cons, Fields, end, field}
use emergency_contact.Aws.Rows.{Rows}
use emergency_contact.CycleApi.Request.{Library}
use emergency_contact.Auth.Triggers.{LockoutTable}
use emergency_contact.Examples.Memory.{Memory, memory_table, memory_rows}

abbrev user_key : String → Fields
user_key u = field "userIdentifier" (str u) end

abbrev Users : Type 0
Users = Memory str_eq user_key

abbrev user_rows : Rows Users String
user_rows = memory_rows str_eq user_key

abbrev in_memory : LockoutTable Users
in_memory = record {
  now_epoch = λ w. (ok (pos 5100), w);
  users = memory_table str_eq user_key;
  write_audit_log = λ u w. (ok tt, w);
}

abbrev lib : Library
lib = record { loads = λ s. none; text_of = λ v. ""; int_of_text = λ s. none }

-- Every user has three failures.
abbrev three_failures : Users
three_failures = (
  λ u. some (
      field "userIdentifier" (str u) (
        field "failedAts"
          (list (cons (int (pos 5000)) (cons (int (pos 4900)) (cons (int (pos 4000)) nil)))) end)),
  0,
)

abbrev login : Fields
login = field "userName" (str "u1") end
