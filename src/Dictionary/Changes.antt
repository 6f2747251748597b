-- ===== src/Dictionary/Changes.antt =====
-- backend/lambdas/dictionary_api/handler.py: a change of a keyword, and the rows that it writes.
use Prim.Native.String.{◌++◌}
use emergency_contact.Prelude.{
  ◌^◌, String, Bool, true, false, not, ◌||◌, Option, none, some, List, [], ◌∷◌, str_eq,
  if◌then◌else◌,
}
use emergency_contact.Prelude.Int.{ℤ, pos, eq_ℤ, ◌*ℤ◌}
use emergency_contact.Python.Results.{Result, ok, err, value_error, ◌>>=◌}
use emergency_contact.Python.Values.{
  Value, bool, int, decimal, str, Fields, end, field, get, lookup, mem, eq_text,
}
use emergency_contact.Aws.Tables.{not_exists}
use emergency_contact.Dictionary.Snapshot.{Snapshot, append_keyword, valid_categories}

-- What a request asks for: a keyword, and the version that it expects. A Boolean is an integer too.
pub record Change : Type 0 where
  pub category : String
  pub keyword : String
  pub expected : Value

-- The key (META_PK, META_SK).
abbrev pub meta_key : String × String
meta_key = ("META", "META")

-- isinstance(v, str) and v in VALID_CATEGORIES
unfoldable pub require_category : Value → Result String
require_category (str c) = if mem c valid_categories then ok c else err value_error
require_category _ = err value_error

unfoldable pub require_keyword : Value → Result String
require_keyword (str k) = if str_eq k "" then err value_error else ok k
require_keyword _ = err value_error

unfoldable pub require_expected : Value → Result Value
require_expected (int n) = ok (int n)
require_expected (bool b) = ok (bool b)
require_expected _ = err value_error

-- The dict that names the keyword, which is the body or the path, and the body.
unfoldable pub parse_change : Fields → Fields → Result Change
parse_change place body = do
  category ← require_category (get "category" place)
  keyword ← require_keyword (get "keyword" place)
  expected ← require_expected (get "expectedVersion" body)
  ok (record { category = category; keyword = keyword; expected = expected })

-- The integer that an expected version is.
unfoldable pub as_int : Value → ℤ
as_int (int n) = n
as_int (bool true) = pos 1
as_int _ = pos 0

-- currentVersion = :expected
unfoldable pub is_stored : Value → Option Value → Bool
is_stored (int n) (some (int m)) = eq_ℤ n m
is_stored (int n) (some (decimal m k)) = eq_ℤ (n *ℤ pos (10 ^ k)) m
is_stored (bool a) (some (bool b)) = if a then b else not b
is_stored _ _ = false

unfoldable pub has_version : Value → Option Fields → Bool
has_version expected none = false
has_version expected (some row) = is_stored expected (lookup "currentVersion" row)

unfoldable pub version_condition : Value → Option Fields → Bool
version_condition expected row =
    if eq_ℤ (as_int expected) (pos 0)
    then not_exists "category" row || has_version expected row
    else has_version expected row

-- attribute_exists(category)
unfoldable pub exists_category : Option Fields → Bool
exists_category row = not (not_exists "category" row)

unfoldable pub keyword_item : String → String → ℤ → Fields
keyword_item category keyword version =
    field "category" (str category)
      (field "keyword" (str keyword) (field "version" (int version) end))

-- row.get("category") != META_PK
unfoldable pub active_rows : List Fields → List Fields
active_rows [] = []
active_rows (row ∷ rows) =
    let rest = active_rows rows in if eq_text (get "category" row) "META" then rest else row ∷ rest

unfoldable pub history_item : ℤ → String → String → Fields
history_item version category keyword = field "version" (int version) (
    field "categoryKeyword" (str (category ++ "#" ++ keyword))
      (field "category" (str category) (field "keyword" (str keyword) end)))

unfoldable pub with_item : ℤ → Value → Value → List Fields → List Fields
with_item version (str category) (str keyword) items = history_item version category keyword ∷ items
with_item version _ _ items = items

-- The rows that the history gets for a version.
unfoldable pub history_items : ℤ → List Fields → List Fields
history_items version [] = []
history_items version (row ∷ rows) =
    with_item version (get "category" row) (get "keyword" row) (history_items version rows)

-- grouped[category].append(keyword)
unfoldable pub group_row : Value → Value → Snapshot → Snapshot
group_row (str category) (str keyword) grouped =
    if mem category valid_categories then append_keyword category keyword grouped else grouped
group_row _ _ grouped = grouped

unfoldable pub group : Snapshot → List Fields → Snapshot
group grouped [] = grouped
group grouped (row ∷ rows) = group (group_row (get "category" row) (get "keyword" row) grouped) rows

unfoldable pub change_extra : Change → ℤ → Fields
change_extra p new_version =
    field "category" (str p.category)
      (field "keyword" (str p.keyword) (field "newVersion" (int new_version) end))
