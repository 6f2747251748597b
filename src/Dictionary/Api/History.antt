-- ===== src/Dictionary/Api/History.antt =====
-- The snapshot that the history gives back of a version.
use mathlib.Core.List.{Permᴰ}
use emergency_contact.Prelude.{
  ◌≡◌, refl, ap, ◌∙◌, ◌≢◌, List, [], ◌∷◌, str_eq, eq_iff, Bool-cases, inl, inr,
}
use emergency_contact.Prelude.Int.{ℤ}
use emergency_contact.Python.Values.{Value, str, Fields, get}
use emergency_contact.Dictionary.Snapshot.{
  Snapshot, empty_snapshot, accept, collect, sort_all, to_snapshot,
}
use emergency_contact.Dictionary.Snapshot.Contents.{to_snapshot-perm}
use emergency_contact.Dictionary.Changes.{history_item, with_item, history_items, group_row, group}

-- No row has the empty text as its keyword.
pub data Named : List Fields → Type 0 where
  none_left : Named []
  named :
      (row : Fields) (rows : List Fields)
      → get "keyword" row ≢ str ""
      → Named rows
      → Named (row ∷ rows)

item-collect :
    (version : ℤ) (v w : Value) (rows : List Fields) (out : Snapshot)
    → collect out (with_item version v w rows) ≡ collect (accept v w out) rows
unfolding with_item history_item collect accept get
item-collect version (str c) (str k) rows out = refl
item-collect version _ _ rows out = refl

items-collect :
    (version : ℤ) (rows : List Fields) (out : Snapshot)
    → collect out (history_items version rows) ≡ collect out rows
unfolding history_items collect
items-collect version [] out = refl
items-collect version (row ∷ rows) out =
    item-collect version (get "category" row) (get "keyword" row) (history_items version rows) out
    ∙ items-collect version rows (accept (get "category" row) (get "keyword" row) out)

accept-group : (v w : Value) (out : Snapshot) → w ≢ str "" → accept v w out ≡ group_row v w out
unfolding accept group_row
accept-group (str c) (str k) out given = elim (Bool-cases (str_eq k "")) [
  | inl e ↦ absurd (given (ap str ((eq_iff k "").0 e)))
  | inr e ↦ rw e refl
]
accept-group _ _ out given = refl

collect-group :
    (rows : List Fields) (out : Snapshot) → Named rows → collect out rows ≡ group out rows
unfolding collect group
collect-group [] out none_left = refl
collect-group (row ∷ rows) out (named _ _ given rest) =
    collect-group rows (accept (get "category" row) (get "keyword" row) out) rest
    ∙ ap (λ o. group o rows) (accept-group (get "category" row) (get "keyword" row) out given)

-- The rows that the history gets for a version give back, in whatever order they arrive, the snapshot
-- of the listing of the same rows: the keywords of each category, sorted. No row has an empty keyword.
pub history-snapshot :
    (version : ℤ) (rows arrived : List Fields)
    → Named rows
    → Permᴰ arrived (history_items version rows)
    → to_snapshot arrived ≡ sort_all (group empty_snapshot rows)
unfolding to_snapshot
history-snapshot version rows arrived given p =
    to_snapshot-perm arrived (history_items version rows) p
    ∙ ap sort_all
        (items-collect version rows empty_snapshot ∙ collect-group rows empty_snapshot given)
