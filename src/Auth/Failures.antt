-- ===== src/Auth/Failures.antt =====
-- The failures that the lockout table has of a user: how backend/lambdas/auth_pre_auth/handler.py reads
-- them.
use emergency_contact.Prelude.{String, Option, none, some, List, [], ◌∷◌}
use emergency_contact.Prelude.Int.{ℤ}
use emergency_contact.Python.Results.{Result, ok, err, type_error, ◌>>=◌}
use emergency_contact.Python.Values.{
  Value, str, list, dict, nil, Fields, end, field, get_or, lookup, to_list,
}
use emergency_contact.CycleApi.Request.{Library, int_of}

unfoldable pub chars : String → List Value
chars String.[] = []
chars (String.◌∷◌ c s) = str (String.◌∷◌ c "") ∷ chars s

unfoldable pub names : Fields → List Value
names end = []
names (field k v d) = str k ∷ names d

-- What a `for` runs through: a list, the characters of a text, or the keys of a dict.
unfoldable pub elements_of : Value → Result (List Value)
elements_of (list vs) = ok (to_list vs)
elements_of (str s) = ok (chars s)
elements_of (dict d) = ok (names d)
elements_of _ = err type_error

module _ (lib : Library) where
  -- [int(v) for v in vs]
  unfoldable pub ints_of : List Value → Result (List ℤ)
  ints_of [] = ok []
  ints_of (v ∷ vs) = do n ← int_of lib v; ns ← ints_of vs; ok (n ∷ ns)

  unfoldable pub times_in : Value → Result (List ℤ)
  times_in raw_failed = do vs ← elements_of raw_failed; ints_of vs

  -- The failures of an item, which may be missing.
  unfoldable pub failures_of : Option Fields → Result (List ℤ)
  failures_of none = ok []
  failures_of (some item) = times_in (get_or (lookup "failedAts" item) (list nil))
