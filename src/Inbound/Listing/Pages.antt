-- ===== src/Inbound/Listing/Pages.antt =====
-- Reading the pages one after the other gives the whole list.
use native.Mathlib.Nat.{zero-add}
use emergency_contact.Prelude.{
  ℕ, zero, suc, ◌+◌, ◌≤◌, ◌≡◌, refl, false, Option, none, some, List, [], ◌∷◌, ◌++◌, length, take,
  drop, take-append-drop, arith, ltb, if◌then◌else◌, Bool-cases, inl, inr, ap, sym, ◌∙◌,
}
use emergency_contact.Prelude.Int.{pos}
use emergency_contact.Python.Results.{Result, ok, ◌>>=◌}
use emergency_contact.Inbound.Listing.{paginate}

drop-nil {ℓ} : {A : Type ℓ} (n : ℕ) → drop {A = A} n [] ≡ []
drop-nil zero = refl
drop-nil (suc n) = refl

drop-drop {ℓ} : {A : Type ℓ} (m n : ℕ) (xs : List A) → drop n (drop m xs) ≡ drop (m + n) xs
drop-drop zero n xs = rw zero-add
drop-drop (suc m) n [] = rw (drop-nil n, drop-nil (suc m + n))
drop-drop (suc m) n (x ∷ xs) =
    let e : suc m + n ≡ suc (m + n) = omega arith in rw e (drop-drop m n xs)

drop_all {ℓ} : {A : Type ℓ} (n : ℕ) (xs : List A) → length xs ≤ n → drop n xs ≡ []
drop_all zero [] h = refl
drop_all zero (x ∷ xs) h = absurd (omega arith)
drop_all (suc n) [] h = refl
drop_all (suc n) (x ∷ xs) h = drop_all n xs (omega arith)

module _ {ℓ} {A : Type ℓ} where
  -- A client that follows `next_offset` from page to page, for at most `fuel` pages.
  pub read_pages : ℕ → List A → ℕ → Option ℕ → Result (List A)
  read_pages fuel items page_size none = ok []
  read_pages zero items page_size (some offset) = ok []
  read_pages (suc fuel) items page_size (some offset) = do
    answer ← paginate items (pos page_size) (pos offset)
    rest ← read_pages fuel items page_size answer.1
    ok (answer.0 ++ rest)

  paginate_lem :
      (items : List A) (size offset : ℕ)
      → 1 ≤ size
      → paginate items (pos size) (pos offset)
        ≡ ok (
          take size (drop offset items),
          (if ltb (offset + size) (length items) then some (offset + size) else none),
        )
  unfolding paginate
  paginate_lem items size offset h = let e : ltb size 1 ≡ false = ground arith in rw e refl

  read_from :
      (fuel : ℕ) (items : List A) (size offset : ℕ)
      → 1 ≤ size
      → length items ≤ offset + fuel
      → read_pages fuel items size (some offset) ≡ ok (drop offset items)
  unfolding read_pages
  read_from zero items size offset h k = rw (drop_all offset items (omega arith))
  read_from (suc fuel) items size offset h k =
      rw (paginate_lem items size offset h)
        (elim (Bool-cases (ltb (offset + size) (length items))) [
          | inl more ↦ rw more (
              rw (read_from fuel items size (offset + size) h (omega arith)) (
                rw (← drop-drop offset size items)
                  (rw (take-append-drop size (drop offset items)))))
          | inr last ↦
              let gone = drop_all (offset + size) items (ground arith) in
              let whole = take-append-drop size (drop offset items) in
              rw last (sym (ap ok (sym whole ∙ rw (drop-drop offset size items, gone))))
        ])

-- A client that starts at offset 0 and follows the next offsets gets every item once, in order,
-- whatever the page size is, and needs no more pages than there are items.
pub read_all :
    {A : Type 0} (items : List A) (size : ℕ)
    → 1 ≤ size
    → read_pages (length items) items size (some 0) ≡ ok items
read_all items size h = read_from (length items) items size 0 h (omega arith)
