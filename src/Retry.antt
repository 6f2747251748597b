-- ===== src/Retry.antt =====
-- backend/shared/retry/evaluator.py: whether an employee is dialled again after a call.
pub mod Decision
pub mod Times
pub mod Handler
use emergency_contact.Prelude.{String, ◌≡◌, Bool, true, false, not, List, [], ◌∷◌, if◌then◌else◌}
use emergency_contact.Prelude.Int.{is_negative, ltb_ℤ}
use emergency_contact.Python.Results.{Result, ok, value_error, raise_if, ◌>>=◌, ◌>>◌}
use emergency_contact.Python.Values.{Value, in_set, eq_text, require_int}

abbrev pub valid_voice_status_values : List String
valid_voice_status_values =
    "PENDING" ∷ "SAFE" ∷ "INJURED" ∷ "UNAVAILABLE" ∷ "OTHER" ∷ "UNREACHABLE" ∷ []

abbrev pub confirmed_voice_statuses : List String
confirmed_voice_statuses = "SAFE" ∷ "INJURED" ∷ "UNAVAILABLE" ∷ []

abbrev pub terminal_voice_statuses : List String
terminal_voice_statuses = "SAFE" ∷ "INJURED" ∷ "UNAVAILABLE" ∷ "UNREACHABLE" ∷ []

-- The result code of the call is accepted and not read, as in the source.
unfoldable pub should_retry :
    (voice_status call_result_code attempts retry_count : Value) → Result Bool
unfolding in_set eq_text require_int
should_retry voice_status call_result_code attempts retry_count = do
  valid ← in_set voice_status valid_voice_status_values
  raise_if (not valid) value_error
  n ← require_int attempts
  m ← require_int retry_count
  raise_if (is_negative n) value_error
  raise_if (is_negative m) value_error
  confirmed ← in_set voice_status confirmed_voice_statuses
  if confirmed
      then ok false
      else if eq_text voice_status "UNREACHABLE"
      then ok false
      else ok (ltb_ℤ n m)

unfoldable pub derive_final_status : Value → Result Value
unfolding in_set
derive_final_status voice_status = do
  valid ← in_set voice_status valid_voice_status_values
  raise_if (not valid) value_error
  confirmed ← in_set voice_status confirmed_voice_statuses
  if confirmed then ok voice_status else ok (Value.str "UNREACHABLE")
