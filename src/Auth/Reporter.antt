-- ===== src/Auth/Reporter.antt =====
-- backend/lambdas/auth_failure_reporter/handler.py: a failed login is reported. The log messages are
-- left out.
pub mod Locking
use emergency_contact.Prelude.{
  ℕ, String, Bool, true, false, not, ◌&&◌, Option, none, some, if◌then◌else◌,
}
use emergency_contact.Prelude.Int.{ℤ, ◌+ℤ◌}
use emergency_contact.Python.Results.{Error, Result, ok, err, value_error}
use emergency_contact.Python.Values.{
  Value, int, str, list, nil, cons, Fields, get, get_or, lookup, eq_text,
}
use emergency_contact.Python.Actions.{Action, pure, lift, attempt, ◌>>=◌}
use emergency_contact.Aws.Tables.{Table, set_field, always}
use emergency_contact.Inbound.Items.{snoc}
use emergency_contact.Employee.Email.{is_valid_email}
use emergency_contact.CycleApi.Request.{Library, parse_body}
use emergency_contact.CycleApi.Handler.{is_client_error}
use emergency_contact.CycleApi.Routes.{is_value_error}

-- The calls of the handler: `time.time`, the table, whose key is the user, and the audit log.
pub record FailureLog (W : Type 0) : Type 0 where
  pub now_epoch : Action W ℤ
  pub users : Table W Value
  pub write_audit_log : Value → Action W (Unit {0})

-- list_append(if_not_exists(failedAts, :empty), :ts): DynamoDB refuses an attribute that is no list.
unfoldable pub append_time : ℤ → Option Value → Value
append_time now none = list (cons (int now) nil)
append_time now (some (list failed_ats)) = list (snoc failed_ats (int now))
append_time now (some v) = v

-- SET failedAts = list_append(…), expireAt = :exp
unfoldable pub failure_row : ℤ → ℤ → Fields → Fields
failure_row now expire_at row =
    set_field "expireAt" (int expire_at)
      (set_field "failedAts" (append_time now (lookup "failedAts" row)) row)

pub data Reply : Type 0 where
  not_allowed : Reply
  invalid_body : Reply
  accepted : (recorded : Bool) → Reply

unfoldable pub is_report : Fields → Bool
is_report event =
    eq_text (get_or (lookup "httpMethod" event) (str "")) "POST"
    && eq_text (get_or (lookup "resource" event) (str "")) "/auth/record-failure"

module _ {W : Type 0} (s : FailureLog W) where
  unfoldable pub after_append : Value → Result Bool → Action W Reply
  after_append user (ok x) = do written ← s.write_audit_log user; pure (accepted true)
  after_append user (err e) = if is_client_error e then pure (accepted false) else lift (err e)

  unfoldable pub record_failure : ℤ → Value → Action W Reply
  record_failure window user = do
    now ← s.now_epoch
    outcome ← attempt (s.users.update_item user always (failure_row now (now +ℤ window)))
    after_append user outcome

  module _ (lib : Library) (is_space : ℕ → Bool) (window : ℤ) where
    unfoldable pub report_user : Value → Action W Reply
    report_user user =
        if is_valid_email is_space user then record_failure window user else pure (accepted false)

    unfoldable pub read_report : Result Fields → Action W Reply
    read_report (ok body) = report_user (get "userIdentifier" body)
    read_report (err e) = if is_value_error e then pure invalid_body else lift (err e)

    unfoldable pub report_failure : Fields → Action W Reply
    report_failure event =
        if is_report event
        then read_report (parse_body lib (get "body" event))
        else pure not_allowed
