-- ===== src/Examples/Reports.antt =====
-- A failed login that is reported, over the failures of one user in memory.
use emergency_contact.Prelude.{
  ℕ, String, ◌≡◌, ◌≤◌, refl, Bool, true, false, Option, some, ap, sym, inr, str_eq, eq_iff, List,
  [], ◌∷◌, ◌==◌, arith,
}
use emergency_contact.Prelude.Int.{ℤ, pos, ◌-ℤ◌}
use emergency_contact.Python.Results.{ok}
use emergency_contact.Python.Values.{
  Value, int, str, list, nil, cons, lookup, dict, Fields, end, field, get, eq_text, is_truthy,
}
use emergency_contact.Python.Actions.{◌>>=◌, continue, lift, pure, attempt}
use emergency_contact.Aws.Tables.{always}
use emergency_contact.Aws.Rows.{Rows}
use emergency_contact.CycleApi.Request.{Library, int_of, parse_body, loaded_dict}
use emergency_contact.Employee.Email as Email
use emergency_contact.Auth.Lockout.{is_locked, count_newer}
use emergency_contact.Auth.Reporter.{
  FailureLog, accepted, after_append, record_failure, report_user, read_report, is_report,
  report_failure,
}
use emergency_contact.Auth.Failures.{failures_of, times_in, elements_of, ints_of}
use emergency_contact.Examples.Memory.{Memory, memory_table, memory_rows, update-Writes}
use emergency_contact.Auth.Reporter.Locking.{Documented, HasTimes, report_failure-locks}

abbrev user : String
user = "a@b.c"

-- Equality of texts, which the keys here are.
abbrev same_value : Value → Value → Bool
same_value (str a) (str b) = str_eq a b
same_value _ _ = false

same_value_eq : (j k : Value) → same_value j k ≡ true → j ≡ k
same_value_eq (str a) (str b) h = ap str ((eq_iff a b).0 h)
same_value_eq _ _ h = cc

abbrev user_key : Value → Fields
user_key u = field "userIdentifier" u end

abbrev Users : Type 0
Users = Memory same_value user_key

abbrev user_rows : Rows Users Value
user_rows = memory_rows same_value user_key

abbrev in_memory : FailureLog Users
in_memory = record {
  now_epoch = λ w. (ok (pos 5100), w);
  users = memory_table same_value user_key;
  write_audit_log = λ u w. (ok tt, w);
}

in_memory-Documented : Documented user_rows in_memory
in_memory-Documented = record {
  keys_only = λ u. refl;
  now_elsewhere = λ w j. refl;
  updates = update-Writes same_value user_key same_value_eq;
  log_elsewhere = λ u w j. refl;
}

abbrev two_failures : List ℤ
two_failures = pos 5000 ∷ pos 4900 ∷ []

abbrev two_failed : Users
two_failed = (
  λ u. some (
      field "userIdentifier" u
        (field "failedAts" (list (cons (int (pos 5000)) (cons (int (pos 4900)) nil))) end)),
  0,
)

abbrev sent : Fields
sent = field "userIdentifier" (str user) end

abbrev lib : Library
lib = record { loads = λ s. some (dict sent); text_of = λ v. ""; int_of_text = λ s. some (pos 0) }

abbrev is_space : ℕ → Bool
is_space c = c == 32

abbrev report : Fields
report =
    field "httpMethod" (str "POST")
      (field "resource" (str "/auth/record-failure") (field "body" (str "{}") end))

parsed : parse_body lib (get "body" report) ≡ ok sent
unfolding parse_body loaded_dict get is_truthy
parsed = refl

recorded :
    (report_failure in_memory lib is_space (pos 1800) report two_failed).0 ≡ ok (accepted true)
unfolding report_failure read_report is_report report_user record_failure after_append parse_body
    loaded_dict get is_truthy eq_text ◌>>=◌ continue lift pure attempt always Email.is_plain
    Email.plain_to_end Email.is_top_level Email.is_dotted Email.is_domain Email.is_rest
    Email.is_email Email.is_valid_email
recorded = refl

two_times : HasTimes lib two_failures (user_rows.row_at two_failed (get "userIdentifier" sent))
unfolding failures_of times_in elements_of ints_of int_of get
two_times = (refl, λ row e. inr (_, ap (lookup "failedAts") (sym (some_row e))))
  where
    some_row : {a b : Fields} → ◌≡◌ {A = Option Fields} (some a) (some b) → a ≡ b
    some_row h = cc

two_recent : 2 ≤ count_newer (pos 5100 -ℤ pos 1800) two_failures
unfolding count_newer ◌-ℤ◌
two_recent = omega arith

report_failure-locks_example :
    (found : List ℤ) × (failures_of lib (
        user_rows.row_at
          (report_failure in_memory lib is_space (pos 1800) report two_failed).1
          (get "userIdentifier" sent))
      ≡ ok found)
    × (is_locked found (pos 5100) (pos 3) (pos 1800) ≡ true)
unfolding ◌-ℤ◌
report_failure-locks_example =
    report_failure-locks user_rows in_memory in_memory-Documented lib is_space (pos 1800) report
      sent (pos 5100) (pos 5100) (pos 1800) 2 two_failed two_failures two_times parsed refl recorded
      refl two_recent
