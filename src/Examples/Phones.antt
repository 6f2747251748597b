-- ===== src/Examples/Phones.antt =====
-- The telephone numbers at concrete inputs.
use emergency_contact.Prelude.{ℕ, ◌≡◌, refl, Bool, true, ◌&&◌, ◌||◌, leb}
use emergency_contact.Python.Values.{str}
use emergency_contact.Employee.Validate.{
  digits, within, one_more, rest_of, is_e164, is_domestic, is_valid_e164, is_valid_domestic_jp,
  domestic_to_e164, domestic_to_e164-valid,
}

abbrev ascii_digit : ℕ → Bool
ascii_digit c = leb 48 c && leb c 57

number_valid :
    (is_valid_domestic_jp ascii_digit (str "09012345678")
      || is_valid_e164 ascii_digit (str "09012345678"))
    ≡ true
unfolding is_valid_domestic_jp is_valid_e164 is_domestic is_e164 digits within one_more
number_valid = refl

converted : domestic_to_e164 ascii_digit "09012345678" ≡ "+819012345678"
unfolding domestic_to_e164 is_domestic digits within one_more rest_of
converted = refl

-- A newline at the end is accepted, and so kept.
newline_valid : is_valid_e164 ascii_digit (str "+81\n") ≡ true
unfolding is_valid_e164 is_e164 digits within one_more
newline_valid = refl

domestic_to_e164-valid_example :
    (is_valid_e164 ascii_digit (str (domestic_to_e164 ascii_digit "09012345678")) ≡ true)
    × (domestic_to_e164 ascii_digit (domestic_to_e164 ascii_digit "09012345678")
        ≡ domestic_to_e164 ascii_digit "09012345678")
domestic_to_e164-valid_example =
    domestic_to_e164-valid ascii_digit refl refl "09012345678" number_valid
