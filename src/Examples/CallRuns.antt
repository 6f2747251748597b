-- ===== src/Examples/CallRuns.antt =====
-- The handlers of the calls over services in memory.
use emergency_contact.Prelude.{
  ℕ, suc, ◌+◌, ◌≤◌, String, ◌≡◌, refl, Bool, true, false, ◌&&◌, Option, none, some, str_eq, arith,
  eq_iff, if◌then◌else◌,
}
use emergency_contact.Prelude.Int.{ℤ, pos}
use emergency_contact.Python.Results.{ok, err, client_error}
use emergency_contact.Python.Values.{Value, str, int, dict, Fields, end, field}
use emergency_contact.Python.Actions.{Action}
use emergency_contact.Aws.Rows.{or_key, Rows, Fixed, Unchanged}
use emergency_contact.Calls.Services.{Key, Services, Documented, Counted}
use emergency_contact.Calls.Ending as Ending
use emergency_contact.Calls.Ending.Event.{Parsed}
use emergency_contact.Calls.Dispatch.{lambda_handler, failed}
use emergency_contact.Python.Values.{get, is_truthy, in_set, mem}
use emergency_contact.Python.Actions.{◌>>=◌, continue, lift, pure, attempt}
use emergency_contact.Aws.Tables.{not_exists, set_field}
use emergency_contact.Calls.Ending.Event.{
  event_dict, all_truthy, normalize_connect_event, normalize_details, to_int, parsed_int,
  parse_event,
}
use emergency_contact.Calls.Dispatch.{
  dispatch_real, after_start, start_outbound_call, start_once, is_retryable, is_exhausted,
  record_error, send_retry_task_success,
}
use emergency_contact.Aws.Retries.{retry, retry_from, after_try, pause}
use emergency_contact.Calls.Dispatch.Event as Due
use emergency_contact.Calls.Once.{stop, ended, dispatched, call_result_code-Once}
use emergency_contact.Calls.Bounds.{lambda_handler-Bounded}
use emergency_contact.Calls.Twice.{ended_twice}
use emergency_contact.Examples.Memory.{Memory, memory_table, memory_rows, answer, update-Writes}

abbrev same_key : Key → Key → Bool
same_key (str a, str b) (str c, str d) = str_eq a c && str_eq b d
same_key _ _ = false

same_key_eq : (j k : Key) → same_key j k ≡ true → j ≡ k
same_key_eq (str a, str b) (str c, str d) h =
    let both : (str_eq a c ≡ true) × (str_eq b d ≡ true) = ground arith in
    let first = (eq_iff a c).0 both.0 in
    let second = (eq_iff b d).0 both.1 in λ i. (str (first i), str (second i))
same_key_eq _ _ h = cc

abbrev key_item : Key → Fields
key_item k = field "cycleId" k.0 (field "employeeId" k.1 end)

abbrev World : Type 0
World = Memory same_key key_item

abbrev nothing : Action World (Unit {0})
nothing w = (ok tt, w)

-- Connect answers every request with the limit of its rate.
abbrev busy : Services World
busy = record {
  utc_now_iso = λ w. (ok "2026-01-01T00:05:00Z", w);
  responses = memory_table same_key key_item;
  start_outbound_voice_contact =
      λ n a w. (err (client_error "ThrottlingException"), (w.0, suc w.1));
  back_off = λ i. nothing;
  put_object = λ k. nothing;
  send_task_success = λ k v. nothing;
}

abbrev rows : Rows World Key
rows = memory_rows same_key key_item

busy-Documented : Documented rows busy
busy-Documented = record {
  updates = update-Writes same_key key_item same_key_eq;
  now_elsewhere = λ w j. refl;
  start_elsewhere = λ n a w j. refl;
  sleep_elsewhere = λ i w j. refl;
  put_elsewhere = λ k w j. refl;
  send_elsewhere = λ k v w j. refl;
}

abbrev requests : World → ℕ
requests w = w.1

answer_same :
    (w : World) (k : Key) (change : Fields → Fields) (a b : Bool)
    → requests (answer same_key key_item w k change a b).1 ≡ requests w
answer_same w k change false b = refl
answer_same w k change true false = refl
answer_same w k change true true = refl

busy-Counted : Counted requests busy
busy-Counted = record {
  started = λ n a w. refl;
  start_raises = λ n a w e. cc;
  sleep_raises = λ i w e. cc;
  now_silent = λ w. refl;
  update_silent = λ k test change w. answer_same w k change (same_key k k) (test (w.0 k));
  sleep_silent = λ i w. refl;
  put_silent = λ k w. refl;
  send_silent = λ k v w. refl;
}

-- int("1"), of a text of one digit
abbrev int_of_text : String → Option ℤ
int_of_text s = if str_eq s "1" then some (pos 1) else none

abbrev text_of : Value → String
text_of (str s) = s
text_of _ = "1"

abbrev first_byte : String → ℕ
first_byte s = 0

abbrev start : World
start = ((λ k. none), 0)

abbrev due : Value
due = dict (
    field "cycleId" (str "C1") (
      field "employeeId" (str "E1") (
        field "phoneNumber" (str "+819012345678")
          (field "attempt" (int (pos 1)) (field "taskToken" (str "T1") end)))))

abbrev over : String → Value
over code = dict (
    field "contactId" (str "K1") (
      field "cycleId" (str "C1") (
        field "employeeId" (str "E1") (
          field "attempt" (str "1")
            (field "callResultCode" (str code) (field "taskToken" (str "T1") end))))))

abbrev parsed : String → Parsed
parsed code = record {
  contact_id = str "K1";
  cycle_id = str "C1";
  employee_id = str "E1";
  attempt = pos 1;
  call_result_code = str code;
  task_token = str "T1";
}

lambda_handler-Bounded_example :
    requests (lambda_handler busy text_of first_byte false due start).1 ≤ requests start + 3
lambda_handler-Bounded_example =
    lambda_handler-Bounded requests busy busy-Counted text_of first_byte false due start

dispatch_fails : (lambda_handler busy text_of first_byte false due start).0 ≡ ok failed
unfolding lambda_handler ◌>>=◌ continue lift pure attempt Due.parse_event event_dict all_truthy
    is_truthy get Due.int_value dispatch_real after_start start_outbound_call retry retry_from
    after_try start_once is_retryable is_exhausted mem pause record_error send_retry_task_success
    not_exists
dispatch_fails = refl

abbrev after_failure : World
after_failure = (lambda_handler busy text_of first_byte false due start).1

-- The dispatch fails, and the end of a later call is refused its result.
abbrev after_both : World
after_both = (Ending.lambda_handler busy int_of_text (over "RECORDED") after_failure).1

call_result_code-Once_example : Fixed rows "callResultCode" start after_both
call_result_code-Once_example =
    call_result_code-Once rows busy busy-Documented text_of first_byte start after_both (
      dispatched false due start after_both
        (ended int_of_text (over "RECORDED") after_failure after_both (stop after_both)))

abbrev after_end : World
after_end = (Ending.lambda_handler busy int_of_text (over "BUSY") start).1

busy_event : parse_event int_of_text (over "BUSY") ≡ ok (parsed "BUSY")
unfolding parse_event event_dict normalize_connect_event normalize_details get all_truthy is_truthy
    to_int parsed_int in_set mem
busy_event = refl

recorded_event : parse_event int_of_text (over "RECORDED") ≡ ok (parsed "RECORDED")
unfolding parse_event event_dict normalize_connect_event normalize_details get all_truthy is_truthy
    to_int parsed_int in_set mem
recorded_event = refl

end_returns :
    (Ending.lambda_handler busy int_of_text (over "BUSY") start).0
    ≡ ok (record { contact_id = str "K1"; call_result_code = str "BUSY" })
unfolding Ending.lambda_handler Ending.end_parsed Ending.record_call_end Ending.send_task_success
    ◌>>=◌ continue lift pure parse_event event_dict normalize_connect_event normalize_details get
    all_truthy is_truthy to_int parsed_int in_set mem not_exists
end_returns = refl

ended_twice_example :
    Unchanged rows after_end (Ending.lambda_handler busy int_of_text (over "RECORDED") after_end).1
ended_twice_example =
    ended_twice rows busy busy-Documented int_of_text (over "BUSY") (over "RECORDED")
      (parsed "BUSY") (parsed "RECORDED") start
      (record { contact_id = str "K1"; call_result_code = str "BUSY" }) busy_event recorded_event
      refl end_returns

-- The second write is refused.
refused : (Ending.record_call_end busy (parsed "RECORDED") after_end).0 ≡ ok false
unfolding Ending.lambda_handler Ending.end_parsed Ending.record_call_end Ending.send_task_success
    Ending.end_call ◌>>=◌ continue lift pure parse_event event_dict normalize_connect_event
    normalize_details get all_truthy is_truthy to_int parsed_int in_set mem not_exists set_field
    or_key
refused = refl
