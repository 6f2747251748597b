-- ===== src/Keyword/Matcher.antt =====
-- backend/shared/keyword/matcher.py: the voice status that a transcript's keywords give. The case
-- mapping `str.lower`, which follows the tables of Unicode, is a parameter.
pub mod Hits
pub mod Priority
use emergency_contact.Prelude.{
  ℕ, String, Bool, true, false, List, [], ◌∷◌, ◌++◌, str_eq, ◌==◌, is_empty, if◌then◌else◌,
}
use emergency_contact.Python.Results.{Result, ok, err, value_error, ◌>>=◌}
use emergency_contact.Python.Values.{
  Value, str, list, dict, Items, nil, cons, Fields, lookup, get_or, mem,
}
use emergency_contact.Python.Texts.{codes}

abbrev pub priority_order : List String
priority_order = "INJURED" ∷ "UNAVAILABLE" ∷ "SAFE" ∷ []

abbrev pub default_status : String
default_status = "OTHER"

unfoldable pub is_prefix : List ℕ → List ℕ → Bool
is_prefix [] ys = true
is_prefix (x ∷ xs) [] = false
is_prefix (x ∷ xs) (y ∷ ys) = if x == y then is_prefix xs ys else false

unfoldable pub is_infix : List ℕ → List ℕ → Bool
unfolding is_prefix
is_infix xs [] = is_empty xs
is_infix xs (y ∷ ys) = if is_prefix xs (y ∷ ys) then true else is_infix xs ys

-- part in whole, of texts
unfoldable pub contains : String → String → Bool
unfolding is_infix
contains part whole = is_infix (codes part) (codes whole)

module _ (lower : String → String) where
  -- One turn of the inner loop. `seen` holds the matched keywords.
  unfoldable pub add_keyword : String → List String → String → List String
  add_keyword text_lower matched kw =
      if str_eq kw ""
      then matched
      else if mem kw matched
      then matched
      else if contains (lower kw) text_lower
      then matched ++ kw ∷ []
      else matched

  unfoldable pub match_keywords : String → List String → Items → Result (List String)
  match_keywords text_lower matched nil = ok matched
  match_keywords text_lower matched (cons (str kw) vs) =
      match_keywords text_lower (add_keyword text_lower matched kw) vs
  match_keywords text_lower matched (cons _ vs) = err value_error

  unfoldable pub require_items : Value → Result Items
  require_items (list vs) = ok vs
  require_items _ = err value_error

  -- dictionary.get(category, [])
  unfoldable pub keywords_of : Fields → String → Result Items
  unfolding require_items
  keywords_of dictionary category = require_items (get_or (lookup category dictionary) (list nil))

  -- The outer loop, over the categories in the order of their priority.
  unfoldable pub first_match : String → Fields → List String → Result (String × List String)
  first_match text_lower dictionary [] = ok (default_status, [])
  first_match text_lower dictionary (category ∷ categories) = do
    keywords ← keywords_of dictionary category
    matched ← match_keywords text_lower [] keywords
    if is_empty matched
        then first_match text_lower dictionary categories
        else ok (category, matched)

  unfoldable pub classify_voice_status : Value → Value → Result (String × List String)
  classify_voice_status (str text) (dict dictionary) =
      first_match (lower text) dictionary priority_order
  classify_voice_status _ _ = err value_error
