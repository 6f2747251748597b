-- ===== src/Auth/Triggers.antt =====
-- backend/lambdas/auth_pre_auth/handler.py and auth_post_auth/handler.py: the account is tested before
-- the password, and its failures are cleared after it. The log messages are left out.
pub mod Unlocking
use emergency_contact.Prelude.{
  ℕ, String, Bool, not, Option, none, some, List, [], str_eq, if◌then◌else◌,
}
use emergency_contact.Prelude.Int.{ℤ, pos, ◌-ℤ◌}
use emergency_contact.Python.Results.{Result, ok, err, value_error, permission_error}
use emergency_contact.Python.Values.{Value, int, str, list, dict, nil, Fields, get}
use emergency_contact.Aws.Tables.{Table, set_field, not_exists}
use emergency_contact.CycleApi.Request.{Library}
use emergency_contact.Auth.Lockout.{is_locked}
use emergency_contact.Auth.Failures.{failures_of}
use emergency_contact.Python.Actions.{Action, pure, lift, ◌>>=◌}

-- The calls of the handlers: `time.time`, the table, whose key is the user, and the audit log.
pub record LockoutTable (W : Type 0) : Type 0 where
  pub now_epoch : Action W ℤ
  pub users : Table W String
  pub write_audit_log : String → Action W (Unit {0})

unfoldable pub require_user : Value → Result String
require_user (str s) = if str_eq s "" then err value_error else ok s
require_user _ = err value_error

-- event.get("userName"), a text that is not empty
unfoldable pub user_of : Fields → Result String
unfolding require_user
user_of event = require_user (get "userName" event)

-- attribute_exists(userIdentifier)
unfoldable pub exists_user : Option Fields → Bool
exists_user row = not (not_exists "userIdentifier" row)

-- SET failedAts = :empty, expireAt = :expired
unfoldable pub clear_row : ℤ → Fields → Fields
clear_row expired row = set_field "expireAt" (int expired) (set_field "failedAts" (list nil) row)

module _ {W : Type 0} (s : LockoutTable W) (lib : Library) where
  unfoldable pub pre_auth : ℤ → ℤ → Fields → Action W Fields
  pre_auth threshold window event = do
    user ← lift (user_of event)
    now ← s.now_epoch
    item ← s.users.get_item user
    failed_ats ← lift (failures_of lib item)
    if is_locked failed_ats now threshold window then lift (err permission_error) else pure event

  -- The answer is false where the user has no item.
  unfoldable pub clear_lockout : String → ℤ → Action W Bool
  clear_lockout user now = s.users.update_item user exists_user (clear_row (now -ℤ pos 1))

  unfoldable pub post_auth : Fields → Action W Fields
  post_auth event = do
    user ← lift (user_of event)
    now ← s.now_epoch
    cleared ← clear_lockout user now
    written ← s.write_audit_log user
    pure event
