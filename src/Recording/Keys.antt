-- ===== src/Recording/Keys.antt =====
-- backend/shared/recording/connect_key.py: the key of a recording. `str` of an integer is a parameter.
use Prim.Native.Char.{code}
use Prim.Native.String.{◌++◌}
use emergency_contact.Prelude.{String, Bool, true, false, ◌==◌, ◌||◌, str_eq, if◌then◌else◌}
use emergency_contact.Prelude.Int.{ℤ, is_negative}
use emergency_contact.Python.Results.{Result, ok, err, value_error, ◌>>=◌}
use emergency_contact.Python.Values.{Value, str, int}

-- "/" in text
unfoldable pub has_slash : String → Bool
has_slash String.[] = false
has_slash (String.◌∷◌ c s) = if code c == code "/" then true else has_slash s

unfoldable pub require_segment : Value → Result String
require_segment (str s) = if str_eq s "" || has_slash s then err value_error else ok s
require_segment _ = err value_error

unfoldable pub require_seq : Value → Result ℤ
require_seq (int n) = if is_negative n then err value_error else ok n
require_seq _ = err value_error

unfoldable pub outbound_key : String → String → String → String
outbound_key cycle_id employee_id seq =
    "recordings" ++ ("/" ++ (cycle_id ++ ("/" ++ (employee_id ++ ("/" ++ (seq ++ ".wav"))))))

unfoldable pub derive_target_outbound_key : (Value → String) → Value → Value → Value → Result String
derive_target_outbound_key text_of cycle_id employee_id seq = do
  cycle ← require_segment cycle_id
  employee ← require_segment employee_id
  n ← require_seq seq
  ok (outbound_key cycle employee (text_of (int n)))
