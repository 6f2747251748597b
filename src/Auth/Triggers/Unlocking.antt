-- ===== src/Auth/Triggers/Unlocking.antt =====
-- After a login the account is not locked.
use emergency_contact.Prelude.{String, ◌≡◌, ◌≢◌, Bool, Option, some}
use emergency_contact.Python.Results.{ok, err, permission_error}
use emergency_contact.Python.Values.{str, Fields, lookup}
use emergency_contact.Aws.Rows.{Rows, Writes, Elsewhere}
use emergency_contact.Auth.Triggers.{LockoutTable}

-- What the calls do to the table of the users, as documented. No call raises PermissionError.
pub record Documented {W : Type 0} (t : Rows W String) (s : LockoutTable W) : Type 0 where
  pub now_raises : (w : W) → (s.now_epoch w).0 ≢ err permission_error
  pub now_elsewhere : Elsewhere t s.now_epoch
  pub get_raises : (u : String) (w : W) → (s.users.get_item u w).0 ≢ err permission_error
  pub get_answers :
      (u : String) (w : W) (o : Option Fields) → (s.users.get_item u w).0 ≡ ok o → o ≡ t.row_at w u
  pub updates :
      (u : String) (test : Option Fields → Bool) (change : Fields → Fields)
      → Writes t u test change (s.users.update_item u test change)
  pub log_elsewhere : (u : String) → Elsewhere t (s.write_audit_log u)

-- An item has its key.
abbrev pub Keyed : {W : Type 0} → Rows W String → W → Type 0
Keyed t w =
    (u : String) (row : Fields)
    → t.row_at w u ≡ some row
    → lookup "userIdentifier" row ≡ some (str u)
