-- ===== src/Dictionary/Snapshot.antt =====
-- backend/shared/dictionary/snapshot.py: the dictionary of one version, from the rows of the history
-- table.
pub mod Contents
pub mod Classified
use emergency_contact.Prelude.{
  String, Bool, true, false, List, [], ◌∷◌, ◌++◌, map, str_eq, if◌then◌else◌,
}
use emergency_contact.Python.Values.{
  Value, str, list, Items, nil, cons, Fields, end, field, get, mem, from_list, lookup,
}
use emergency_contact.Python.Order.{text_lt}
use emergency_contact.Python.Sorting.{sort}

abbrev pub valid_categories : List String
valid_categories = "SAFE" ∷ "INJURED" ∷ "UNAVAILABLE" ∷ []

-- `out`: the keywords of each of the three categories.
pub record Snapshot : Type 0 where
  pub safe : List String
  pub injured : List String
  pub unavailable : List String

abbrev pub empty_snapshot : Snapshot
empty_snapshot = record { safe = []; injured = []; unavailable = [] }

-- out[category].append(keyword)
unfoldable pub append_keyword : String → String → Snapshot → Snapshot
append_keyword category keyword out =
    if str_eq category "SAFE"
    then record {
      safe = out.safe ++ keyword ∷ [];
      injured = out.injured;
      unavailable = out.unavailable;
    }
    else if str_eq category "INJURED"
    then record {
      safe = out.safe;
      injured = out.injured ++ keyword ∷ [];
      unavailable = out.unavailable;
    }
    else if str_eq category "UNAVAILABLE"
    then record {
      safe = out.safe;
      injured = out.injured;
      unavailable = out.unavailable ++ keyword ∷ [];
    }
    else out

unfoldable pub accept : Value → Value → Snapshot → Snapshot
accept (str category) (str keyword) out =
    if mem category valid_categories
    then if str_eq keyword "" then out else append_keyword category keyword out
    else out
accept _ _ out = out

unfoldable pub collect : Snapshot → List Fields → Snapshot
collect out [] = out
collect out (row ∷ rows) = collect (accept (get "category" row) (get "keyword" row) out) rows

unfoldable pub sort_all : Snapshot → Snapshot
sort_all out = record {
  safe = sort text_lt out.safe;
  injured = sort text_lt out.injured;
  unavailable = sort text_lt out.unavailable;
}

unfoldable pub to_snapshot : List Fields → Snapshot
to_snapshot history_items = sort_all (collect empty_snapshot history_items)

-- The Python dict that the snapshot is.
abbrev pub texts : List String → Value
texts ks = list (from_list (map str ks))

unfoldable pub as_dict : Snapshot → Fields
as_dict out =
    field "SAFE" (texts out.safe)
      (field "INJURED" (texts out.injured) (field "UNAVAILABLE" (texts out.unavailable) end))
