-- ===== src/Inbound/Listing.antt =====
-- backend/shared/inbound/listing.py: the contacts, latest first, in pages.
pub mod Pages
pub mod Sorting
use emergency_contact.Prelude.{
  ℕ, ◌+◌, String, Bool, true, false, Option, none, some, List, [], ◌∷◌, length, take, drop, ltb,
  if◌then◌else◌, map,
}
use emergency_contact.Prelude.Int.{ℤ, pos, is_negative, ltb_ℤ}
use emergency_contact.Python.Results.{Result, ok, err, value_error, raise_if, ◌>>=◌, ◌>>◌}
use emergency_contact.Python.Values.{Value, str, Fields, get}
use emergency_contact.Python.Order.{text_lt}
use emergency_contact.Python.Sorting.{sort}

abbrev pub inbound_page_size : ℕ
inbound_page_size = 50

unfoldable pub received_at_sort_key : Fields → String
unfolding get
received_at_sort_key item = elim (get "receivedAt" item) [ str s ↦ s | _ ↦ "" ]

-- key(a) < key(b)
unfoldable pub earlier : Fields → Fields → Bool
earlier a b = text_lt (received_at_sort_key a) (received_at_sort_key b)

-- The test of a descending sort.
unfoldable pub later : Fields → Fields → Bool
later a b = earlier b a

-- sorted(items, key=_received_at_sort_key, reverse=True), which keeps the order of equal keys
unfoldable pub sort_by_received_at_desc : List Fields → List Fields
sort_by_received_at_desc items = sort later items

-- Integers page_size and offset, and the slice items[offset:offset+page_size].
module _ {ℓ} {A : Type ℓ} where
  pub slice_page : List A → ℕ → ℕ → List A × Option ℕ
  slice_page items page_size offset =
      let end = offset + page_size in
      (take page_size (drop offset items), (if ltb end (length items) then some end else none))

  unfoldable pub paginate : List A → ℤ → ℤ → Result (List A × Option ℕ)
  unfolding slice_page
  paginate items (pos page_size) (pos offset) = do
    raise_if (ltb page_size 1) value_error
    ok (slice_page items page_size offset)
  paginate items _ _ = err value_error
