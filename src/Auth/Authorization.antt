-- ===== src/Auth/Authorization.antt =====
-- backend/shared/auth/authorization.py: whether a token's claims hold the administrator group.
pub mod Groups
use emergency_contact.Prelude.{
  ℕ, String, ◌≡◌, refl, ◌↔◌, ◌⊎◌, inl, inr, Bool, true, false, ◌&&◌, ◌||◌, Option, none, some, List,
  [], ◌∷◌, ◌++◌, arith, str_eq, eq_iff, eq_refl, leb, ◌==◌, if◌then◌else◌, Bool-cases,
}
use emergency_contact.Python.Values.{
  Value, null, bool, int, decimal, str, list, dict, Items, nil, cons, Fields, lookup, mem,
}
use emergency_contact.Python.Texts.{is_space, split}

abbrev pub administrator_group : String
administrator_group = "Administrator"

abbrev pub cognito_groups_claim : String
cognito_groups_claim = "cognito:groups"

-- [g for g in raw if isinstance(g, str)]
pub texts_of : Items → List String
texts_of nil = []
texts_of (cons (str g) vs) = g ∷ texts_of vs
texts_of (cons _ vs) = texts_of vs

-- The claim's value as a list of group names, if it has one.
unfoldable pub groups_of : Value → Option (List String)
unfolding texts_of split
groups_of (str raw) = some (split raw)
groups_of (list vs) = some (texts_of vs)
groups_of _ = none

grants : Option (List String) → String → Bool
unfolding mem
grants none group = false
grants (some groups) group = mem group groups

claimed : Option Value → Option (List String)
unfolding groups_of
claimed none = none
claimed (some raw) = groups_of raw

unfoldable pub is_authorized : Value → Value → Bool
unfolding grants claimed
is_authorized (dict claims) (str required_group) =
    if str_eq required_group ""
    then false
    else grants (claimed (lookup cognito_groups_claim claims)) required_group
is_authorized _ _ = false
