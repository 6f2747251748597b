-- ===== src/Validation.antt =====
-- backend/shared/validation/range_enum.py: the tests of a configuration value.
use emergency_contact.Prelude.{
  String, ◌≡◌, refl, ◌↔◌, Bool, true, false, ◌&&◌, List, [], ◌∷◌, arith, is_empty, if◌then◌else◌,
}
use emergency_contact.Prelude.Int.{ℤ, pos, ltb_ℤ, leb_ℤ, ◌≤ℤ◌}
use emergency_contact.Python.Values.{Value, bool, int, str, mem}
use emergency_contact.Python.Texts.{OneOf, OneOf-of_mem, mem_of_OneOf}

abbrev pub retry_count_low : ℤ
retry_count_low = pos 0

abbrev pub retry_count_high : ℤ
retry_count_high = pos 5

abbrev pub retry_interval_low : ℤ
retry_interval_low = pos 1

abbrev pub retry_interval_high : ℤ
retry_interval_high = pos 60

abbrev pub env_values : List String
env_values = "dev" ∷ "stg" ∷ "prod" ∷ []

abbrev pub mode_values : List String
mode_values = "ALL" ∷ "UNREACHABLE_ONLY" ∷ []

abbrev pub voice_status_values : List String
voice_status_values = "PENDING" ∷ "SAFE" ∷ "INJURED" ∷ "UNAVAILABLE" ∷ "OTHER" ∷ []

unfoldable pub in_range : Value → ℤ → ℤ → Bool
in_range (bool b) low high = false
in_range (int n) low high = if ltb_ℤ high low then false else leb_ℤ low n && leb_ℤ n high
in_range _ low high = false

unfoldable pub in_enum : Value → List String → Bool
in_enum (str s) valid = if is_empty valid then false else mem s valid
in_enum _ valid = false

in_range_sound :
    (v : Value) (low high : ℤ)
    → in_range v low high ≡ true
    → (n : ℤ) × (v ≡ int n) × (low ≤ℤ n) × (n ≤ℤ high)
unfolding in_range
in_range_sound (int n) low high h = (n, refl, ground arith, ground arith)
in_range_sound _ low high h = cc

in_range_complete : (n low high : ℤ) → low ≤ℤ n → n ≤ℤ high → in_range (int n) low high ≡ true
unfolding in_range
in_range_complete n low high h k = ground arith

-- `in_range` accepts a value exactly when it is an integer (no Boolean and no decimal) between the
-- bounds, both included. Bounds in the wrong order accept nothing.
pub in_range_iff :
    (v : Value) (low high : ℤ)
    → (in_range v low high ≡ true) ↔ ((n : ℤ) × (v ≡ int n) × (low ≤ℤ n) × (n ≤ℤ high))
in_range_iff v low high =
    (in_range_sound v low high, λ (n, e, h, k). rw e (in_range_complete n low high h k))

in_enum_sound :
    (v : Value) (valid : List String)
    → in_enum v valid ≡ true
    → (s : String) × (v ≡ str s) × OneOf s valid
unfolding in_enum
in_enum_sound (str s) valid h = (s, refl, OneOf-of_mem s valid (ground arith))
in_enum_sound _ valid h = cc

in_enum_complete : (s : String) (valid : List String) → OneOf s valid → in_enum (str s) valid ≡ true
unfolding in_enum
in_enum_complete s [] m = absurd m
in_enum_complete s (t ∷ ts) m = mem_of_OneOf s (t ∷ ts) m

-- `in_enum` accepts a value exactly when it is a text that is one of the permitted ones.
pub in_enum_iff :
    (v : Value) (valid : List String)
    → (in_enum v valid ≡ true) ↔ ((s : String) × (v ≡ str s) × OneOf s valid)
in_enum_iff v valid = (in_enum_sound v valid, λ (s, e, m). rw e (in_enum_complete s valid m))
