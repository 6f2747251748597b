-- ===== src/Inbound/Moments.antt =====
-- Instants of Python's `datetime`, as far as the selection of a cycle reads them.
use emergency_contact.Prelude.{ℕ, ◌+◌, ◌*◌, Bool, Option, none, some, ltb, if◌then◌else◌}
use emergency_contact.Prelude.Int.{ℤ, pos, ◌-ℤ◌, leb_ℤ}
use emergency_contact.Python.Results.{Result, ok, err, overflow_error}

-- The local time in microseconds since 0001-01-01T00:00, and the offset from UTC in microseconds,
-- if the datetime is timezone-aware.
pub record Moment : Type 0 where
  pub local : ℕ
  pub offset : Option ℤ

abbrev pub microseconds_per_day : ℕ
microseconds_per_day = 86400000000

-- datetime.max falls on 9999-12-31, the 3652059th day.
abbrev pub max_local : ℕ
max_local = 3652059 * microseconds_per_day

-- moment + timedelta(days=days)
unfoldable pub add_days : Moment → ℕ → Result Moment
add_days t days =
    let later = t.local + days * microseconds_per_day in
    if ltb later max_local then ok (record t { local = later }) else err overflow_error

abbrev offset_or_zero : Option ℤ → ℤ
offset_or_zero none = pos 0
offset_or_zero (some n) = n

-- The instant on the scale of UTC.
unfoldable pub instant : Moment → ℤ
unfolding ◌-ℤ◌
instant t = pos t.local -ℤ offset_or_zero t.offset

-- a <= b, of aware datetimes
unfoldable pub not_after : Moment → Moment → Bool
not_after a b = leb_ℤ (instant a) (instant b)
