-- ===== src/Python/Values.antt =====
-- The values of the source: what `json` and DynamoDB give. A `Decimal` is a coefficient and its
-- number of decimal places. Floats, which neither gives to these functions, are left out.
use emergency_contact.Prelude.{
  ℕ, ◌≡◌, ◌+◌, ◌/◌, ◌^◌, String, Bool, true, false, Option, none, some, List, [], ◌∷◌, str_eq, not,
  if◌then◌else◌,
}
use emergency_contact.Prelude.Int.{ℤ, pos, negsuc, sub_ℕ, eq_ℤ}
use emergency_contact.Python.Results.{Result, ok, err, type_error, value_error}

mutual
  pub data Value : Type 0 where
    null : Value
    bool : Bool → Value
    int : ℤ → Value
    decimal : ℤ → ℕ → Value
    str : String → Value
    list : Items → Value
    dict : Fields → Value

  pub data Items : Type 0 where
    nil : Items
    cons : Value → Items → Items

  pub data Fields : Type 0 where
    end : Fields
    field : String → Value → Fields → Fields

-- d[k], where the key is there
abbrev pub lookup : String → Fields → Option Value
lookup k end = none
lookup k (field j v d) = if str_eq j k then some v else lookup k d

-- d.get(k, default)
abbrev pub get_or : Option Value → Value → Value
get_or none v = v
get_or (some w) v = w

unfoldable pub get : String → Fields → Value
get k d = get_or (lookup k d) null

-- The elements of a Python list.
abbrev pub to_list : Items → List Value
to_list nil = []
to_list (cons v vs) = v ∷ to_list vs

abbrev pub from_list : List Value → Items
from_list [] = nil
from_list (v ∷ vs) = cons v (from_list vs)

-- s in {…}, for a set of texts
unfoldable pub mem : String → List String → Bool
mem s [] = false
mem s (t ∷ ts) = if str_eq s t then true else mem s ts

-- v in frozenset({…}): a list or a dict is not hashable, and the test raises.
unfoldable pub in_set : Value → List String → Result Bool
in_set (str s) ts = ok (mem s ts)
in_set (list vs) ts = err type_error
in_set (dict d) ts = err type_error
in_set _ ts = ok false

-- v == "…"
unfoldable pub eq_text : Value → String → Bool
eq_text (str s) t = str_eq s t
eq_text _ t = false

-- int(…) truncates towards zero.
unfoldable pub truncate : ℤ → ℕ → ℤ
truncate (pos n) k = pos (n / 10 ^ k)
truncate (negsuc n) k = sub_ℕ 0 ((n + 1) / 10 ^ k)

-- isinstance(v, int) and not isinstance(v, bool), with the error that the caller raises
unfoldable pub require_int : Value → Result ℤ
require_int (int n) = ok n
require_int _ = err value_error

pub str_injective : {s t : String} → str s ≡ str t → s ≡ t
str_injective h = cc

pub dict_injective : {c d : Fields} → dict c ≡ dict d → c ≡ d
dict_injective h = cc

-- bool(v)
unfoldable pub is_truthy : Value → Bool
is_truthy null = false
is_truthy (bool b) = b
is_truthy (int n) = not (eq_ℤ n (pos 0))
is_truthy (decimal n k) = not (eq_ℤ n (pos 0))
is_truthy (str s) = not (str_eq s "")
is_truthy (list nil) = false
is_truthy (list (cons v vs)) = true
is_truthy (dict end) = false
is_truthy (dict (field k v d)) = true
