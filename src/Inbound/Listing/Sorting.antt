-- ===== src/Inbound/Listing/Sorting.antt =====
-- The sorted contacts are the same ones, latest first, and equal times keep their order.
use mathlib.Core.List.{Perm}
use emergency_contact.Prelude.{String, ◌≡◌, Bool, true, false, List, str_eq, eq_iff}
use emergency_contact.Python.Values.{Fields}
use emergency_contact.Python.Order.{text_lt_irrefl, text_lt_asymm, text_ge_trans}
use emergency_contact.Python.Sorting.{IsSorted, sort-perm, sort-IsSorted, filter, filter-sort}
use emergency_contact.Inbound.Listing.{
  received_at_sort_key, earlier, later, sort_by_received_at_desc,
}

-- The row was received at the time that `key` writes.
pub has_key : String → Fields → Bool
has_key key row = str_eq (received_at_sort_key row) key

later_asymm : (a b : Fields) → later a b ≡ true → later b a ≡ false
unfolding later earlier
later_asymm a b = text_lt_asymm (received_at_sort_key b) (received_at_sort_key a)

later_ge_trans : (a b c : Fields) → later a b ≡ false → later b c ≡ false → later a c ≡ false
unfolding later earlier
later_ge_trans a b c h k =
    text_ge_trans (received_at_sort_key c) (received_at_sort_key b) (received_at_sort_key a) k h

tied :
    (key : String) (a b : Fields) → has_key key a ≡ true → has_key key b ≡ true → later a b ≡ false
unfolding later earlier has_key
tied key a b h k =
    rw ((eq_iff (received_at_sort_key a) key).0 h, (eq_iff (received_at_sort_key b) key).0 k)
      (text_lt_irrefl key)

-- The list is sorted latest first by the text of `receivedAt`, it holds the same rows as often, and the
-- rows of one time stand in the order in which they came.
pub sort_by_received_at_desc_lem :
    (items : List Fields)
    → Perm (sort_by_received_at_desc items) items
      × IsSorted later (sort_by_received_at_desc items)
      × ((key : String)
          → filter later (has_key key) (sort_by_received_at_desc items)
            ≡ filter later (has_key key) items)
unfolding sort_by_received_at_desc
sort_by_received_at_desc_lem items = (
  sort-perm later items,
  sort-IsSorted later later_asymm later_ge_trans items,
  λ key. filter-sort later (has_key key) (tied key) items,
)
