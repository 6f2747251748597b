-- ===== src/Python/Floats.antt =====
-- The quotient of two integers, which Python rounds to the nearest float, a tie to the even mantissa.
pub mod Bounds
use emergency_contact.Prelude.{
  ℕ, zero, suc, ◌+◌, ◌*◌, ◌/◌, ◌%◌, ◌^◌, Bool, true, false, ltb, ◌==◌, if◌then◌else◌,
}
use emergency_contact.Python.Results.{Result, ok, err, overflow_error}

-- mantissa * unit / scale; the unit and the scale are powers of two, and one of them is 1.
pub record Float : Type 0 where
  pub mantissa : ℕ
  pub unit : ℕ
  pub scale : ℕ

-- n / d to the nearest integer, a tie to the even one
unfoldable pub round_half_even : ℕ → ℕ → ℕ
round_half_even n d =
    let half = 2 * (n % d) in
    if ltb half d
    then n / d
    else if ltb d half
    then n / d + 1
    else if (n / d) % 2 == 0
    then n / d
    else n / d + 1

-- Doublings of n, until the quotient has the 53 digits of a mantissa. A float has 1074 binary places
-- at most.
unfoldable pub scale_of : ℕ → ℕ → ℕ → ℕ
scale_of zero n d = 1
scale_of (suc places) n d = elim (ltb (n / d) (2 ^ 52)) [
  | true ↦ 2 * scale_of places (2 * n) d
  | false ↦ 1
]

-- Doublings of d, until the quotient has 53 digits at most. The greatest float has 971 more.
unfoldable pub unit_of : ℕ → ℕ → ℕ → ℕ
unit_of zero n d = 1
unit_of (suc more) n d = elim (ltb (n / d) (2 ^ 53)) [
  | true ↦ 1
  | false ↦ 2 * unit_of more n (2 * d)
]

unfoldable pub is_finite : Float → Bool
is_finite x = ltb (x.mantissa * x.unit) (2 ^ 1024 * x.scale)

unfoldable pub require_finite : Float → Result Float
require_finite x = if is_finite x then ok x else err overflow_error

abbrev pub nearest : ℕ → ℕ → ℕ → ℕ → Float
nearest n d unit scale = record {
  mantissa = round_half_even (n * scale) (d * unit);
  unit = unit;
  scale = scale;
}

-- n / d, for a positive d
unfoldable pub true_div : ℕ → ℕ → Result Float
true_div n d = require_finite (nearest n d (unit_of 971 n d) (scale_of 1074 n d))

-- int(x)
unfoldable pub truncated : Float → ℕ
truncated x = (x.mantissa * x.unit) / x.scale

-- round(x)
unfoldable pub rounded : Float → ℕ
rounded x = round_half_even (x.mantissa * x.unit) x.scale
