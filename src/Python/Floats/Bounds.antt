-- ===== src/Python/Floats/Bounds.antt =====
-- How near the float of a quotient is, below 2 ^ 53.
use native.Mathlib.Nat.{
  div-add-mod', mod-lt, div-lt_iff_lt-mul, div-mul-le_self, lt-div-mul-add, mul-le-mul_right,
}
use emergency_contact.Prelude.{
  ◌⊎◌, ℕ, zero, suc, ◌+◌, ◌*◌, ◌/◌, ◌%◌, ◌^◌, ◌≤◌, ◌<◌, ◌≡◌, refl, sym, ap, ◌∙◌, inl, inr, true,
  ltb, leb, subst, lt→ltb, Bool-cases, arith,
}
use emergency_contact.Python.Results.{ok, ok_injective}
use emergency_contact.Python.Floats.{
  Float, round_half_even, scale_of, unit_of, is_finite, require_finite, nearest, true_div,
  truncated, rounded,
}

one_more : (q d : ℕ) → (q + 1) * d ≡ q * d + d
one_more q d = omega arith

round_half_even-cases :
    (n d : ℕ)
    → ((round_half_even n d ≡ n / d) × (2 * (n % d) ≤ d))
      ⊎ ((round_half_even n d ≡ n / d + 1) × (d ≤ 2 * (n % d)))
unfolding round_half_even
round_half_even-cases n d = ground arith

-- The nearest integer is within half of the quotient.
pub round_half_even-near :
    (n d : ℕ)
    → 0 < d
    → (2 * (round_half_even n d * d) ≤ 2 * n + d) × (2 * n ≤ 2 * (round_half_even n d * d) + d)
round_half_even-near n d h = elim (round_half_even-cases n d) [
  | inl e ↦
      let split = div-add-mod' n d in
      let same = ap (λ q. q * d) e.0 in (omega arith, let small = mod-lt n h in omega arith)
  | inr e ↦
      let split = div-add-mod' n d in
      let same : round_half_even n d * d ≡ n / d * d + d =
        ap (λ q. q * d) e.0 ∙ one_more (n / d) d in
      let small = mod-lt n h in (omega arith, omega arith)
]

below-div : (n d : ℕ) → 0 < d → n < d * 2 ^ 52 → n / d < 2 ^ 52
below-div n d h k = (div-lt_iff_lt-mul {k = d} {x = n} {y = 2 ^ 52} h).1 (omega arith)

-- d * 2 ^ 53, halved
unfoldable pub room : ℕ → ℕ → ℕ
room d zero = d * 2 ^ 53
room d (suc c) = room d c / 2

unfoldable pub pow2 : ℕ → ℕ
pow2 zero = 1
pow2 (suc c) = 2 * pow2 c

room-le : (d c : ℕ) → room d c ≤ d * 2 ^ 53
unfolding room
room-le d zero = omega arith
room-le d (suc c) = let rest = room-le d c in omega arith

pub scale_of-pos : (f n d : ℕ) → 0 < scale_of f n d
unfolding scale_of
scale_of-pos zero n d = omega arith
scale_of-pos (suc f) n d = elim (Bool-cases (ltb (n / d) (2 ^ 52))) [
  | inl e ↦ let rest = scale_of-pos f (2 * n) d in rw (e, scale_of) (omega arith)
  | inr e ↦ rw (e, scale_of) (omega arith)
]

-- A quotient that is small has many binary places.
pub scale_of-least : (c f n d : ℕ) → 0 < d → c ≤ f → n < room d c → pow2 c ≤ scale_of f n d
unfolding scale_of pow2 room
scale_of-least zero f n d h k l = scale_of-pos f n d
scale_of-least (suc c) zero n d h k l = absurd (omega arith)
scale_of-least (suc c) (suc f) n d h k l =
    let whole = room-le d c in
    let small = lt→ltb (n / d) (2 ^ 52) (below-div n d h (omega arith)) in
    let rest = scale_of-least c f (2 * n) d h (omega arith) (omega arith) in
    rw (small, scale_of) (omega arith)

pub unit_of-one : (f n d : ℕ) → n / d < 2 ^ 53 → unit_of f n d ≡ 1
unfolding unit_of
unit_of-one zero n d h = refl
unit_of-one (suc f) n d h = rw (lt→ltb (n / d) (2 ^ 53) h, unit_of)

finite-same : (x y : Float) → require_finite x ≡ ok y → x ≡ y
unfolding require_finite
finite-same x y h = elim (Bool-cases (is_finite x)) [
  | inl e ↦ ok_injective (rw e at h)
  | inr e ↦ let never = rw e at h in cc
]

-- Below 2 ^ 53 the mantissa is the scaled quotient, to the nearest integer.
pub true_div-nearest :
    (n d : ℕ) (x : Float)
    → n / d < 2 ^ 53
    → true_div n d ≡ ok x
    → nearest n d 1 (scale_of 1074 n d) ≡ x
unfolding true_div
true_div-nearest n d x small h =
    ap (λ u. nearest n d u (scale_of 1074 n d)) (sym (unit_of-one 971 n d small))
    ∙ finite-same _ x h

truncated-core :
    (n s m w : ℕ)
    → 524288 ≤ s
    → 2 * (m * 1000000) ≤ 2 * (n * s) + 1000000
    → 2 * (n * s) ≤ 2 * (m * 1000000) + 1000000
    → w * s ≤ m
    → m < w * s + s
    → (w * 1000000 ≤ n) × (n < suc w * 1000000)
truncated-core n s m w places above below under over = (
  elim (Bool-cases (leb (w * 1000000) n)) [
    | inl e ↦ ground arith
    | inr e ↦
        let scaled = mul-le-mul_right {m = n + 1} {n = w * 1000000} s (ground arith) in
        absurd (omega arith)
  ],
  elim (Bool-cases (ltb n (suc w * 1000000))) [
    | inl e ↦ ground arith
    | inr e ↦
        let scaled = mul-le-mul_right {m = suc w * 1000000} {n = n} s (ground arith) in
        absurd (omega arith)
  ],
)

-- A quotient below 2 ^ 33 by a million is truncated exactly.
pub truncated-exact :
    (n : ℕ) (x : Float)
    → n < 1000000 * 2 ^ 33
    → true_div n 1000000 ≡ ok x
    → (truncated x * 1000000 ≤ n) × (n < suc (truncated x) * 1000000)
unfolding truncated room pow2
truncated-exact n x small h =
    let s = scale_of 1074 n 1000000 in
    let places : 524288 ≤ s =
      scale_of-least 19 1074 n 1000000 (omega arith) (omega arith) (omega arith) in
    let m = round_half_even (n * s) 1000000 in
    let near = round_half_even-near (n * s) 1000000 (omega arith) in
    let under = div-mul-le_self (m * 1) s in
    let over = lt-div-mul-add {a = m * 1} {b = s} (omega arith) in
    subst (λ y. (truncated y * 1000000 ≤ n) × (n < suc (truncated y) * 1000000))
      (true_div-nearest n 1000000 x (omega arith) h)
      (truncated-core n s m (m * 1 / s) places near.0 near.1 (omega arith) (omega arith))

rounded-core :
    (size s m e : ℕ)
    → 8192 ≤ s
    → 2 * (m * 128000) ≤ 2 * (size * 8 * s) + 128000
    → 2 * (size * 8 * s) ≤ 2 * (m * 128000) + 128000
    → 2 * (e * s) ≤ 2 * m + s
    → 2 * m ≤ 2 * (e * s) + s
    → (size ≤ 16000 * e + 8000) × (16000 * e ≤ size + 8000)
rounded-core size s m e places above below under over = (
  elim (Bool-cases (leb size (16000 * e + 8000))) [
    | inl k ↦ ground arith
    | inr k ↦
        let scaled = mul-le-mul_right {m = 16000 * e + 8001} {n = size} s (ground arith) in
        absurd (omega arith)
  ],
  elim (Bool-cases (leb (16000 * e) (size + 8000))) [
    | inl k ↦ ground arith
    | inr k ↦
        let scaled = mul-le-mul_right {m = size + 8001} {n = 16000 * e} s (ground arith) in
        absurd (omega arith)
  ],
)

finite :
    (n s m : ℕ)
    → 0 < s
    → n < 2 ^ 56
    → 2 * (m * 128000) ≤ 2 * (n * s) + 128000
    → ltb (m * 1) (2 ^ 1024 * s) ≡ true
finite n s m h small above =
    let scaled = mul-le-mul_right {m = n} {n = 2 ^ 56} s (omega arith) in
    lt→ltb (m * 1) (2 ^ 1024 * s) (omega arith)

-- A quotient of 8 bits a byte by 128,000 bits a second is a float, for sizes below 2 ^ 53, and it is
-- rounded to within half a second.
pub rounded-exact :
    (size : ℕ)
    → size < 2 ^ 53
    → (x : Float) × (true_div (size * 8) 128000 ≡ ok x)
      × (size ≤ 16000 * rounded x + 8000)
      × (16000 * rounded x ≤ size + 8000)
unfolding rounded room pow2 true_div require_finite is_finite
rounded-exact size small =
    let n = size * 8 in
    let s = scale_of 1074 n 128000 in
    let places : 8192 ≤ s =
      scale_of-least 13 1074 n 128000 (omega arith) (omega arith) (omega arith) in
    let m = round_half_even (n * s) 128000 in
    let near = round_half_even-near (n * s) 128000 (omega arith) in
    let last = round_half_even-near (m * 1) s (omega arith) in
    let one = unit_of-one 971 n 128000 (omega arith) in
    let bounds =
      rounded-core size s m (round_half_even (m * 1) s) places near.0 near.1 (omega arith)
        (omega arith) in
    let fits = finite n s m (omega arith) (omega arith) near.0 in
    (nearest n 128000 1 s, rw (one, fits) refl, bounds.0, bounds.1)
