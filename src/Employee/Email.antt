-- ===== src/Employee/Email.antt =====
-- backend/shared/employee/validate.py: the pattern of a mail address. The class `\s` of code points is
-- a parameter; it has the newline, before which `$` also matches.
use Prim.Native.Char.{code}
use emergency_contact.Prelude.{
  ℕ, String, Bool, true, false, not, ◌&&◌, ◌||◌, ◌==◌, str_eq, if◌then◌else◌,
}
use emergency_contact.Python.Values.{Value, str}

module _ (is_space : ℕ → Bool) where
  -- [^\s@]
  unfoldable pub is_plain : ℕ → Bool
  is_plain c = not (is_space c) && not (c == 64)

  -- [^\s@]*$
  unfoldable pub plain_to_end : String → Bool
  plain_to_end String.[] = true
  plain_to_end (String.◌∷◌ c s) =
      let rest = plain_to_end s in if is_plain (code c) then rest else str_eq (String.◌∷◌ c s) "\n"

  -- [^\s@]+$
  unfoldable pub is_top_level : String → Bool
  is_top_level String.[] = false
  is_top_level (String.◌∷◌ c s) = is_plain (code c) && plain_to_end s

  -- [^\s@]*\.[^\s@]+$
  unfoldable pub is_dotted : String → Bool
  is_dotted String.[] = false
  is_dotted (String.◌∷◌ c s) =
      is_plain (code c) && ((code c == 46 && is_top_level s) || is_dotted s)

  -- [^\s@]+\.[^\s@]+$
  unfoldable pub is_domain : String → Bool
  is_domain String.[] = false
  is_domain (String.◌∷◌ c s) = is_plain (code c) && is_dotted s

  -- [^\s@]*@[^\s@]+\.[^\s@]+$
  unfoldable pub is_rest : String → Bool
  is_rest String.[] = false
  is_rest (String.◌∷◌ c s) =
      let rest = is_rest s in if code c == 64 then is_domain s else is_plain (code c) && rest

  unfoldable pub is_email : String → Bool
  is_email String.[] = false
  is_email (String.◌∷◌ c s) = is_plain (code c) && is_rest s

  unfoldable pub is_valid_email : Value → Bool
  is_valid_email (str s) = is_email s
  is_valid_email _ = false
