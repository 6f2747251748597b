-- ===== src/CycleApi/Request.antt =====
-- The request of a cycle: backend/lambdas/cycle_api/handler.py. What the code takes from Python is a
-- parameter.
use emergency_contact.Prelude.{
  String, true, false, not, ◌||◌, Option, none, some, List, [], ◌∷◌, if◌then◌else◌,
}
use emergency_contact.Prelude.Int.{ℤ, pos, ltb_ℤ}
use emergency_contact.Python.Results.{
  Result, ok, err, value_error, type_error, attribute_error, raise_if, ◌>>=◌, ◌>>◌,
}
use emergency_contact.Python.Values.{
  Value, bool, int, decimal, str, dict, Fields, end, get, get_or, lookup, in_set, is_truthy,
  truncate,
}

-- `json.loads`, `str` of a value, and `int` of a text.
pub record Library : Type 0 where
  pub loads : String → Option Value
  pub text_of : Value → String
  pub int_of_text : String → Option ℤ

-- DEFAULT_RETRY_COUNT and DEFAULT_RETRY_INTERVAL_MINUTES
pub record Defaults : Type 0 where
  pub retry_count : ℤ
  pub retry_interval_minutes : ℤ

abbrev pub valid_modes : List String
valid_modes = "ALL" ∷ "UNREACHABLE_ONLY" ∷ []

-- The fields of a body that are valid.
pub record Order : Type 0 where
  pub mode : Value
  pub retry_count : Value
  pub retry_interval : Value
  pub referenced_cycle_id : Value
  pub idempotency_key : Value

unfoldable pub loaded_dict : Option Value → Result Fields
loaded_dict (some (dict d)) = ok d
loaded_dict _ = err value_error

-- `json.loads` takes texts only, and raises a TypeError at another value.
unfoldable pub parse_body : Library → Value → Result Fields
parse_body lib (str raw) =
    if is_truthy (str raw) then loaded_dict (lib.loads raw) else err value_error
parse_body lib raw = if is_truthy raw then err type_error else err value_error

-- a or b
unfoldable pub or_value : Value → Value → Value
or_value a b = if is_truthy a then a else b

unfoldable pub idempotency_key_from : Fields → Value
idempotency_key_from headers =
    or_value (get "Idempotency-Key" headers) (or_value (get "idempotency-key" headers) (str ""))

-- v.get(…), of a value that may be no dict
unfoldable pub require_mapping : Value → Result Fields
require_mapping (dict d) = ok d
require_mapping _ = err attribute_error

-- d.get(name, {})
unfoldable pub section_of : String → Fields → Result Fields
section_of name d = require_mapping (get_or (lookup name d) (dict end))

unfoldable pub principal_from : Library → Fields → Result String
principal_from lib event = do
  context ← section_of "requestContext" event
  authorizer ← section_of "authorizer" context
  claims ← section_of "claims" authorizer
  ok (lib.text_of (get_or (lookup "sub" claims) (str "<unknown>")))

-- isinstance(v, int) and low <= v <= high; a Boolean is an integer too.
unfoldable pub require_between : Value → ℤ → ℤ → Result (Unit {0})
require_between (int n) low high = raise_if (ltb_ℤ n low || ltb_ℤ high n) value_error
require_between (bool true) low high =
    raise_if (ltb_ℤ (pos 1) low || ltb_ℤ high (pos 1)) value_error
require_between (bool false) low high =
    raise_if (ltb_ℤ (pos 0) low || ltb_ℤ high (pos 0)) value_error
require_between _ low high = err value_error

unfoldable pub parse_order : Defaults → Fields → Fields → Result Order
parse_order defaults body headers = do
  valid ← in_set (get "mode" body) valid_modes
  raise_if (not valid) value_error
  require_between (get_or (lookup "retryCount" body) (int defaults.retry_count)) (pos 0) (pos 5)
  require_between
      (get_or (lookup "retryIntervalMinutes" body) (int defaults.retry_interval_minutes)) (pos 1)
      (pos 60)
  ok (record {
    mode = get "mode" body;
    retry_count = get_or (lookup "retryCount" body) (int defaults.retry_count);
    retry_interval =
        get_or (lookup "retryIntervalMinutes" body) (int defaults.retry_interval_minutes);
    referenced_cycle_id = get "referencedCycleId" body;
    idempotency_key = idempotency_key_from headers;
  })

unfoldable pub read_int : Option ℤ → Result ℤ
read_int none = err value_error
read_int (some n) = ok n

-- int(v)
unfoldable pub int_of : Library → Value → Result ℤ
int_of lib (int n) = ok n
int_of lib (bool true) = ok (pos 1)
int_of lib (bool false) = ok (pos 0)
int_of lib (decimal n k) = ok (truncate n k)
int_of lib (str s) = read_int (lib.int_of_text s)
int_of lib _ = err type_error
