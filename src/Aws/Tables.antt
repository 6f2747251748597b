-- ===== src/Aws/Tables.antt =====
-- A table of DynamoDB: its calls, and the expressions of its updates and conditions.
use emergency_contact.Prelude.{
  ◌^◌, String, Bool, true, false, Option, none, some, str_eq, if◌then◌else◌,
}
use emergency_contact.Prelude.Int.{pos, ◌+ℤ◌}
use emergency_contact.Python.Values.{Value, int, decimal, Fields, end, field, lookup}
use emergency_contact.Python.Actions.{Action}

-- A conditional write has its condition, on the item that may be missing, and answers false on a
-- ConditionalCheckFailedException. The change of an update acts on the item, or on the key alone where
-- there is none.
pub record Table (W K : Type 0) : Type 0 where
  pub get_item : K → Action W (Option Fields)
  pub put_item : K → (Option Fields → Bool) → Fields → Action W Bool
  pub update_item : K → (Option Fields → Bool) → (Fields → Fields) → Action W Bool

-- SET name = value
unfoldable pub set_field : String → Value → Fields → Fields
set_field k v end = field k v end
set_field k v (field j w d) = if str_eq j k then field j v d else field j w (set_field k v d)

-- ADD name 1: DynamoDB refuses an attribute that is not a number.
unfoldable pub plus_one : Value → Value
plus_one (int n) = int (n +ℤ pos 1)
plus_one (decimal n k) = decimal (n +ℤ pos (10 ^ k)) k
plus_one v = v

unfoldable pub add_one_to : String → Fields → Fields
unfolding plus_one
add_one_to k end = field k (int (pos 1)) end
add_one_to k (field j w d) =
    if str_eq j k then field j (plus_one w) d else field j w (add_one_to k d)

abbrev pub is_missing : Option Value → Bool
is_missing none = true
is_missing (some v) = false

-- attribute_not_exists(name)
unfoldable pub not_exists : String → Option Fields → Bool
not_exists name none = true
not_exists name (some row) = is_missing (lookup name row)

-- No condition.
unfoldable pub always : Option Fields → Bool
always row = true
