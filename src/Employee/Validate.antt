-- ===== src/Employee/Validate.antt =====
-- backend/shared/employee/validate.py: the patterns of a telephone number. The class `\d` of code
-- points is a parameter, and `$` also matches before a newline that ends the text.
use Prim.Native.Char.{code}
use Prim.Native.String.{◌++◌}
use text.Mathlib.TextLemmas.{cons-append, nil-append}
use emergency_contact.Prelude.{
  ℕ, suc, String, ◌≡◌, inl, inr, Bool, true, false, ◌&&◌, ◌||◌, ◌==◌, leb, Option, none, some,
  str_eq, if◌then◌else◌, Bool-cases, arith,
}
use emergency_contact.Python.Values.{Value, str}

unfoldable pub within : ℕ → ℕ → Option ℕ → Bool
within low high none = false
within low high (some n) = leb low n && leb n high

unfoldable pub one_more : Option ℕ → Option ℕ
one_more none = none
one_more (some n) = some (suc n)

-- phone[1:]
unfoldable pub rest_of : String → String
rest_of String.[] = ""
rest_of (String.◌∷◌ c s) = s

module _ (is_decimal : ℕ → Bool) where
  -- How many digits stand before `$`, if there is nothing but digits.
  unfoldable pub digits : String → Option ℕ
  unfolding one_more
  digits String.[] = some 0
  digits (String.◌∷◌ c s) =
      let rest = digits s in
      if is_decimal (code c)
      then one_more rest
      else if str_eq (String.◌∷◌ c s) "\n"
      then some 0
      else none

  -- ^\+\d{1,15}$
  unfoldable pub is_e164 : String → Bool
  unfolding within digits
  is_e164 String.[] = false
  is_e164 (String.◌∷◌ c s) = if code c == 43 then within 1 15 (digits s) else false

  -- ^0\d{9,10}$
  unfoldable pub is_domestic : String → Bool
  unfolding within digits
  is_domestic String.[] = false
  is_domestic (String.◌∷◌ c s) = if code c == 48 then within 9 10 (digits s) else false

  unfoldable pub is_valid_e164 : Value → Bool
  is_valid_e164 (str s) = is_e164 s
  is_valid_e164 _ = false

  unfoldable pub is_valid_domestic_jp : Value → Bool
  is_valid_domestic_jp (str s) = is_domestic s
  is_valid_domestic_jp _ = false

  unfoldable pub domestic_to_e164 : String → String
  domestic_to_e164 phone = if is_domestic phone then "+81" ++ rest_of phone else phone

  plus_81 : (s : String) → "+81" ++ s ≡ String.◌∷◌ "+" (String.◌∷◌ "8" (String.◌∷◌ "1" s))
  plus_81 s = rw (cons-append, cons-append, cons-append, nil-append)

  within-longer : (n : Option ℕ) → within 9 10 n ≡ true → within 1 15 (one_more (one_more n)) ≡ true
  unfolding within one_more
  within-longer none h = h
  within-longer (some n) h = ground arith

  is_domestic-digits : (s : String) → is_domestic s ≡ true → within 9 10 (digits (rest_of s)) ≡ true
  unfolding is_domestic rest_of
  is_domestic-digits (String.◌∷◌ c s) h = elim (Bool-cases (code c == 48)) [
    | inl e ↦ rw e at h
    | inr e ↦ let never = rw e at h in cc
  ]
  is_domestic-digits String.[] h = cc

  is_e164-plus_81 :
      (eight : is_decimal 56 ≡ true) (one : is_decimal 49 ≡ true) (s : String)
      → within 9 10 (digits s) ≡ true
      → is_e164 ("+81" ++ s) ≡ true
  unfolding is_e164 digits
  is_e164-plus_81 eight one s h =
      let longer = within-longer (digits s) h in rw (plus_81 s, eight, one, longer)

  is_domestic-plus_81 : (s : String) → is_domestic ("+81" ++ s) ≡ false
  unfolding is_domestic
  is_domestic-plus_81 s = rw (plus_81 s)

  -- A number that is valid, in either form, becomes a valid E.164 number, which is converted no further.
  -- Assumed of the class of digits is that it has 8 and 1.
  pub domestic_to_e164-valid :
      (eight : is_decimal 56 ≡ true) (one : is_decimal 49 ≡ true) (s : String)
      → (is_valid_domestic_jp (str s) || is_valid_e164 (str s)) ≡ true
      → (is_valid_e164 (str (domestic_to_e164 s)) ≡ true)
        × (domestic_to_e164 (domestic_to_e164 s) ≡ domestic_to_e164 s)
  unfolding domestic_to_e164 is_valid_domestic_jp is_valid_e164
  domestic_to_e164-valid eight one s h = elim (Bool-cases (is_domestic s)) [
    | inl e ↦
        let valid = is_e164-plus_81 eight one (rest_of s) (is_domestic-digits s e) in
        let once = is_domestic-plus_81 (rest_of s) in (rw (e, valid), rw (e, once))
    | inr e ↦ let valid = rw e at h in (rw (e, valid), rw (e, e))
  ]
