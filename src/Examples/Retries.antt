-- ===== src/Examples/Retries.antt =====
-- The retry evaluator at concrete inputs. A time is written in strokes, one for each microsecond and
-- one more.
use text.Mathlib.TextLemmas.{cons≢nil}
use emergency_contact.Prelude.{
  ℕ, zero, suc, ◌+◌, ◌-◌, ◌*◌, ◌≤◌, ◌<◌, String, ◌≡◌, refl, ap, false, Option, none, some, str_eq,
  lt→ltb, arith,
}
use emergency_contact.Prelude.Int.{pos, ◌-ℤ◌}
use emergency_contact.Python.Results.{◌>>=◌, ok}
use emergency_contact.Python.Floats.{
  true_div, truncated, scale_of, unit_of, round_half_even, require_finite, is_finite,
}
use emergency_contact.Python.Values.{
  Value, str, int, dict, end, field, get, in_set, mem, eq_text, require_int,
}
use emergency_contact.Python.Texts.{str_eq_of_ne}
use emergency_contact.Inbound.Moments.{Moment, max_local, instant}
use emergency_contact.Inbound.Selection.{require_text, ends_with_z}
use emergency_contact.Retry.{should_retry, derive_final_status}
use emergency_contact.Retry.Times.{
  utc, to_utc, parse_iso_utc, compute_next_dispatch_at, compute_retry_wait_seconds, add_minutes,
  require_interval, seconds_between, wait_reaches_interval,
}
use emergency_contact.Retry.Handler.{
  Reply, event_dict, all_present, is_given, is_text_or_null, parse_event, finish, evaluate,
  lambda_handler, IsDecision, lambda_handler-IsDecision,
}

strokes : ℕ → String
strokes zero = "|"
strokes (suc n) = String.◌∷◌ "|" (strokes n)

stroke_count : String → ℕ
stroke_count String.[] = 0
stroke_count (String.◌∷◌ c s) = suc (stroke_count s)

read : String → Option Moment
read s = some (utc (stroke_count s - 1))

write : Moment → String
write t = strokes t.local

stroke_count-strokes : (n : ℕ) → stroke_count (strokes n) ≡ suc n
unfolding stroke_count strokes
stroke_count-strokes zero = refl
stroke_count-strokes (suc n) = ap suc (stroke_count-strokes n)

strokes_given : (n : ℕ) → str_eq (strokes n) "" ≡ false
unfolding strokes
strokes_given zero = refl
strokes_given (suc n) = str_eq_of_ne _ "" cons≢nil

strokes_end : (n : ℕ) → ends_with_z (strokes n) ≡ false
unfolding strokes ends_with_z
strokes_end zero = refl
strokes_end (suc zero) = refl
strokes_end (suc (suc n)) = strokes_end (suc n)

instant-utc : (n : ℕ) → instant (utc n) ≡ pos n
unfolding instant ◌-ℤ◌
instant-utc n = ground arith

reads_back : (n : ℕ) → n < max_local → parse_iso_utc read write (str (write (utc n))) ≡ ok (utc n)
unfolding parse_iso_utc require_text read write to_utc
reads_back n h =
    let inside = lt→ltb n max_local h in
    let counted = stroke_count-strokes n in
    let pred : suc n - 1 ≡ n = omega arith in
    rw (strokes_given n, strokes_end n, counted, pred, instant-utc n, inside)

-- The call ended at 0, and it is half a minute later.
ended : Value
ended = str (write (utc 0))

now : Value
now = str (write (utc 30000000))

waits : compute_retry_wait_seconds read write ended (int (pos 5)) now ≡ ok 270
unfolding compute_retry_wait_seconds compute_next_dispatch_at require_interval add_minutes
    seconds_between true_div truncated scale_of unit_of round_half_even require_finite is_finite
    ended now ◌>>=◌
waits = rw (
  reads_back 0 (omega arith),
  reads_back 300000000 (omega arith),
  reads_back 30000000 (omega arith),
)

-- After three million days the float of the last microseconds is a whole second more.
far_apart : (true_div 259200000000999999 1000000 >>= λ x. ok (truncated x)) ≡ ok 259200000001
unfolding true_div truncated scale_of unit_of round_half_even require_finite is_finite
far_apart = refl

wait_reaches_interval_example :
    (270 * 1000000 ≤ 0 + 5 * 60000000 - 30000000)
    × (0 + 5 * 60000000 < 30000000 + suc 270 * 1000000)
unfolding ended now
wait_reaches_interval_example =
    wait_reaches_interval read write reads_back ended now 5 0 30000000 270 (omega arith)
      (reads_back 0 (omega arith)) (reads_back 30000000 (omega arith)) waits

abbrev finished : Value
finished = dict (
    field "cycleId" (str "C1") (
      field "employeeId" (str "E1") (
        field "voiceStatus" (str "OTHER") (
          field "attempts" (int (pos 3)) (
            field "retryCount" (int (pos 3))
              (field "retryIntervalMinutes" (int (pos 5)) (field "prevEndAt" (str "|") end)))))))

abbrev last_reply : Reply
last_reply = record {
  retry = false;
  retry_wait_seconds = 0;
  next_dispatch_at = none;
  final_status = some (str "UNREACHABLE");
}

ends : lambda_handler read write "|" finished ≡ ok last_reply
unfolding lambda_handler parse_event event_dict all_present is_given is_text_or_null get evaluate
    finish should_retry derive_final_status in_set mem eq_text require_int
ends = refl

lambda_handler-IsDecision_example : IsDecision read write "|" last_reply
lambda_handler-IsDecision_example =
    lambda_handler-IsDecision read write "|" finished last_reply ends
