-- ===== src/Connect/CallResult.antt =====
-- backend/shared/connect/call_result.py: the result code of a call. The case mapping `str.upper`,
-- which follows the tables of Unicode, is a parameter.
pub mod Outcomes
use Prim.Native.Char.{Char, code}
use emergency_contact.Prelude.{
  String, Bool, true, false, Option, none, some, List, [], ◌∷◌, str_eq, not, ◌==◌, if◌then◌else◌,
}
use emergency_contact.Python.Results.{Result, ok, err, value_error, ◌>>=◌, ◌>>◌, raise_if}
use emergency_contact.Python.Values.{Value, null, bool, str, mem}
use emergency_contact.Python.Texts.{is_space}

abbrev pub valid_call_result_codes : List String
valid_call_result_codes =
    "RECORDED" ∷ "NO_ANSWER" ∷ "BUSY" ∷ "VOICEMAIL" ∷ "ERROR" ∷ "TRANSCRIBE_FAILED" ∷ []

abbrev pub no_answer_reasons : List String
no_answer_reasons = "NO_ANSWER" ∷ "NO_USER_RESPONSE" ∷ "EXPIRED" ∷ "TIMEOUT" ∷ "RING_TIMEOUT" ∷ []

abbrev pub busy_reasons : List String
busy_reasons = "BUSY" ∷ "LINE_BUSY" ∷ "USER_BUSY" ∷ []

abbrev pub voicemail_reasons : List String
voicemail_reasons = "VOICEMAIL" ∷ "ANSWERING_MACHINE" ∷ "ANSWERING_MACHINE_DETECTED" ∷ []

abbrev pub error_reasons : List String
error_reasons =
    "API_ERROR" ∷ "ERROR" ∷ "REJECT" ∷ "REJECTED" ∷ "FAILED" ∷ "TELECOM_PROBLEM" ∷ "ENDPOINT_ERROR"
    ∷ "DISPATCH_FAILED" ∷ "USER_NOT_AVAILABLE" ∷ []

abbrev pub connected_reasons : List String
connected_reasons =
    "CUSTOMER_DISCONNECT" ∷ "CONTACT_FLOW_DISCONNECT" ∷ "AGENT_DISCONNECT" ∷ "NORMAL_HANGUP"
    ∷ "HANGUP" ∷ "OK" ∷ "NORMAL" ∷ []

abbrev pub transcribe_status_completed : List String
transcribe_status_completed = "COMPLETED" ∷ []

abbrev pub transcribe_status_failed : List String
transcribe_status_failed = "FAILED" ∷ []

abbrev pub transcribe_status_pending : List String
transcribe_status_pending = "QUEUED" ∷ "IN_PROGRESS" ∷ []

abbrev pub all_transcribe_statuses : List String
all_transcribe_statuses = "COMPLETED" ∷ "FAILED" ∷ "QUEUED" ∷ "IN_PROGRESS" ∷ []

strip_left : String → String
strip_left String.[] = ""
strip_left (String.◌∷◌ c s) =
    let rest = strip_left s in if is_space (code c) then rest else String.◌∷◌ c s

keep_char : Char → String → String
keep_char c String.[] = if is_space (code c) then "" else String.◌∷◌ c ""
keep_char c (String.◌∷◌ d s) = String.◌∷◌ c (String.◌∷◌ d s)

strip_right : String → String
unfolding keep_char
strip_right String.[] = ""
strip_right (String.◌∷◌ c s) = keep_char c (strip_right s)

-- s.strip()
unfoldable pub strip : String → String
unfolding strip_left strip_right
strip s = strip_right (strip_left s)

-- s.replace(old, new), of one character
unfoldable pub replace : Char → Char → String → String
replace old new String.[] = ""
replace old new (String.◌∷◌ c s) =
    String.◌∷◌ (if code c == code old then new else c) (replace old new s)

unfoldable pub classify_non_connected : String → Option String
classify_non_connected reason_n =
    if mem reason_n no_answer_reasons
    then some "NO_ANSWER"
    else if mem reason_n busy_reasons
    then some "BUSY"
    else if mem reason_n voicemail_reasons
    then some "VOICEMAIL"
    else if mem reason_n error_reasons
    then some "ERROR"
    else none

-- The status is one of the given texts; `None` is none of them.
is_status : Option String → List String → Bool
is_status none ts = false
is_status (some s) ts = mem s ts

is_none : Option String → Bool
is_none none = true
is_none (some s) = false

unfoldable pub classify_connected : Option String → Bool → Result String
unfolding is_status is_none
classify_connected ts_n recorded =
    if not recorded
    then ok "ERROR"
    else if is_none ts_n
    then ok "RECORDED"
    else if is_status ts_n transcribe_status_pending
    then ok "RECORDED"
    else if is_status ts_n transcribe_status_completed
    then ok "RECORDED"
    else if is_status ts_n transcribe_status_failed
    then ok "TRANSCRIBE_FAILED"
    else err value_error

require_reason : Value → Result String
require_reason (str s) = ok s
require_reason _ = err value_error

require_bool : Value → Result Bool
require_bool (bool b) = ok b
require_bool _ = err value_error

-- Rule 2 and rule 3, where the reason is in no other bucket.
unfoldable pub classify_rest : String → Option String → Bool → Option String → Result String
classify_rest reason_n ts_n recorded (some c) = ok c
classify_rest reason_n ts_n recorded none =
    if mem reason_n connected_reasons then classify_connected ts_n recorded else err value_error

module _ (upper : String → String) where
  unfoldable pub normalise : String → String
  normalise s = replace " " "_" (replace "-" "_" (upper (strip s)))

  unfoldable pub normalise_transcribe_status : Value → Result (Option String)
  normalise_transcribe_status null = ok none
  normalise_transcribe_status (str s) =
      if str_eq (strip s) ""
      then ok none
      else if mem (normalise s) all_transcribe_statuses
      then ok (some (normalise s))
      else err value_error
  normalise_transcribe_status _ = err value_error

  unfoldable pub classify_call_result : Value → Value → Value → Result String
  unfolding require_reason require_bool
  classify_call_result reason transcribe_status recorded = do
    reason_s ← require_reason reason
    raise_if (str_eq (strip reason_s) "") value_error
    recorded_b ← require_bool recorded
    ts_n ← normalise_transcribe_status transcribe_status
    classify_rest (normalise reason_s) ts_n recorded_b (classify_non_connected (normalise reason_s))
