-- ===== src/Retry/Times.antt =====
-- backend/shared/retry/evaluator.py: when an employee is dialled again. `datetime.fromisoformat` and
-- `isoformat().replace("+00:00", "Z")`, of a datetime in UTC, are parameters.
use Prim.Native.String.{◌++◌}
use emergency_contact.Prelude.{
  ℕ, suc, ◌+◌, ◌-◌, ◌*◌, ◌^◌, ◌≤◌, ◌<◌, String, ◌≡◌, sym, subst, ◌∙◌, inl, inr, ◌||◌, Option, some,
  ltb, if◌then◌else◌, arith, Bool-cases, ltb→lt,
}
use emergency_contact.Prelude.Int.{ℤ, pos, negsuc}
use emergency_contact.Python.Results.{
  Result, ok, err, value_error, overflow_error, ◌>>=◌, >>=-eq-ok, ok_injective,
}
use emergency_contact.Python.Values.{Value, int, str}
use emergency_contact.Python.Floats.{true_div, truncated}
use emergency_contact.Python.Floats.Bounds.{truncated-exact}
use emergency_contact.Inbound.Moments.{Moment, max_local, instant}
use emergency_contact.Inbound.Selection.{ends_with_z, require_text, require_parsed}

abbrev pub microseconds_per_second : ℕ
microseconds_per_second = 1000000

abbrev pub microseconds_per_minute : ℕ
microseconds_per_minute = 60000000

-- value[:-1]
unfoldable pub drop_last : String → String
drop_last String.[] = ""
drop_last (String.◌∷◌ c String.[]) = ""
drop_last (String.◌∷◌ c (String.◌∷◌ d s)) = String.◌∷◌ c (drop_last (String.◌∷◌ d s))

abbrev pub utc : ℕ → Moment
utc n = record { local = n; offset = some (pos 0) }

-- t.astimezone(timezone.utc)
unfoldable pub to_utc : ℤ → Result Moment
to_utc (pos n) = if ltb n max_local then ok (utc n) else err overflow_error
to_utc (negsuc n) = err overflow_error

-- t + timedelta(minutes=minutes)
unfoldable pub add_minutes : Moment → ℕ → Result Moment
add_minutes t minutes =
    let later = t.local + minutes * microseconds_per_minute in
    if ltb later max_local then ok (record t { local = later }) else err overflow_error

-- An int, not a bool, in [1, 60].
unfoldable pub require_interval : Value → Result ℕ
require_interval (int (pos n)) = if ltb n 1 || ltb 60 n then err value_error else ok n
require_interval _ = err value_error

-- max(0, int((b - a).total_seconds())): where the difference is negative, so is the float or it is
-- zero, and the result is 0, as the truncated difference gives.
unfoldable pub seconds_between : Moment → Moment → Result ℕ
seconds_between a b = do
  total_seconds ← true_div (b.local - a.local) microseconds_per_second
  ok (truncated total_seconds)

require_interval-same : (n k : ℕ) → require_interval (int (pos n)) ≡ ok k → n ≡ k
unfolding require_interval
require_interval-same n k h = elim (Bool-cases (ltb n 1 || ltb 60 n)) [
  | inl e ↦ let never = rw e at h in cc
  | inr e ↦ ok_injective (rw e at h)
]

add_minutes-returns :
    (p n : ℕ) (t : Moment)
    → add_minutes (utc p) n ≡ ok t
    → (t ≡ utc (p + n * microseconds_per_minute)) × (p + n * microseconds_per_minute < max_local)
unfolding add_minutes
add_minutes-returns p n t h = elim (Bool-cases (ltb (p + n * microseconds_per_minute) max_local)) [
  | inl e ↦ (sym (ok_injective (rw e at h)), ltb→lt _ _ e)
  | inr e ↦ let never = rw e at h in cc
]

seconds-bounds :
    (q target wait : ℕ)
    → target < q + microseconds_per_second * 2 ^ 33
    → seconds_between (utc q) (utc target) ≡ ok wait
    → (wait * microseconds_per_second ≤ target - q)
      × (target < q + suc wait * microseconds_per_second)
unfolding seconds_between
seconds-bounds q target wait near h =
    let (x, divided, is) = >>=-eq-ok (true_div (target - q) microseconds_per_second) _ h in
    let same : truncated x ≡ wait = ok_injective is in
    let (above, below) = truncated-exact (target - q) x (omega arith) divided in
    (rw⁻¹ same above, rw⁻¹ same (omega arith))

module _ (fromisoformat : String → Option Moment) (isoformat_z : Moment → String) where
  unfoldable pub parse_iso_utc : Value → Result Moment
  parse_iso_utc value = do
    s ← require_text value
    parsed ← require_parsed (fromisoformat (if ends_with_z s then drop_last s ++ "+00:00" else s))
    to_utc (instant parsed)

  unfoldable pub compute_next_dispatch_at : Value → Value → Result String
  compute_next_dispatch_at prev_end_at_iso interval_minutes = do
    interval ← require_interval interval_minutes
    prev_end_at ← parse_iso_utc prev_end_at_iso
    next_dispatch_at ← add_minutes prev_end_at interval
    ok (isoformat_z next_dispatch_at)

  unfoldable pub compute_retry_wait_seconds : Value → Value → Value → Result ℕ
  compute_retry_wait_seconds prev_end_at_iso interval_minutes now_iso = do
    next_dispatch_at_iso ← compute_next_dispatch_at prev_end_at_iso interval_minutes
    next_dispatch_at ← parse_iso_utc (str next_dispatch_at_iso)
    now ← parse_iso_utc now_iso
    seconds_between now next_dispatch_at

  -- A UTC datetime that is written and read again.
  abbrev pub ReadsBack : Type 0
  ReadsBack = (n : ℕ) → n < max_local → parse_iso_utc (str (isoformat_z (utc n))) ≡ ok (utc n)

  read_wait :
      (s : String) (now : Value) (q target wait : ℕ)
      → parse_iso_utc (str s) ≡ ok (utc target)
      → parse_iso_utc now ≡ ok (utc q)
      → (parse_iso_utc (str s) >>= λ next_dispatch_at.
          parse_iso_utc now >>= λ t. seconds_between t next_dispatch_at)
        ≡ ok wait
      → seconds_between (utc q) (utc target) ≡ ok wait
  read_wait s now q target wait hs hn h = rw (hs, hn) at h

  -- The wait is the time from now to the end of the interval after the last call, rounded down to
  -- whole seconds: it does not go beyond that end, unless that has passed and the wait is zero, and it
  -- falls short of it by less than a second. The end lies within 2 ^ 33 seconds of now, and what
  -- `datetime` writes of a time in UTC it is assumed to read as that time.
  pub wait_reaches_interval :
      (back : ReadsBack) (prev now : Value) (interval p q wait : ℕ)
      → p + interval * microseconds_per_minute < q + microseconds_per_second * 2 ^ 33
      → parse_iso_utc prev ≡ ok (utc p)
      → parse_iso_utc now ≡ ok (utc q)
      → compute_retry_wait_seconds prev (int (pos interval)) now ≡ ok wait
      → (wait * microseconds_per_second ≤ p + interval * microseconds_per_minute - q)
        × (p + interval * microseconds_per_minute < q + suc wait * microseconds_per_second)
  unfolding compute_retry_wait_seconds compute_next_dispatch_at
  wait_reaches_interval back prev now interval p q wait soon hp hq h =
      let next = >>=-eq-ok (compute_next_dispatch_at prev (int (pos interval))) _ h in
      let k = >>=-eq-ok (require_interval (int (pos interval))) _ next.1 in
      let start = >>=-eq-ok (parse_iso_utc prev) _ k.2 in
      let from = ok_injective (sym start.1 ∙ hp) in
      let later =
        >>=-eq-ok (add_minutes (utc p) interval) (λ x. ok (isoformat_z x))
          (subst (λ n. (add_minutes (utc p) n >>= λ x. ok (isoformat_z x)) ≡ ok next.0)
            (sym (require_interval-same interval k.0 k.1))
            (subst (λ m. (add_minutes m k.0 >>= λ x. ok (isoformat_z x)) ≡ ok next.0) from
              start.2)) in
      let end = add_minutes-returns p interval later.0 later.1 in
      let target = p + interval * microseconds_per_minute in
      let written = subst (λ m. isoformat_z m ≡ next.0) end.0 (ok_injective later.2) in
      let read = subst (λ s. parse_iso_utc (str s) ≡ ok (utc target)) written (back target end.1) in
      seconds-bounds q target wait soon (read_wait next.0 now q target wait read hq next.2)
