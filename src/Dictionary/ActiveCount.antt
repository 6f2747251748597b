-- ===== src/Dictionary/ActiveCount.antt =====
-- backend/shared/dictionary/active_count.py: whether the dictionary has a keyword.
use emergency_contact.Prelude.{
  ℕ, ◌+◌, ◌≡◌, refl, ◌↔◌, Bool, true, List, [], ◌∷◌, ◌==◌, length, arith,
}
use emergency_contact.Python.Values.{Fields}

unfoldable pub count_active_keywords : List Fields → List Fields → List Fields → ℕ
count_active_keywords safe_items injured_items unavailable_items =
    length safe_items + length injured_items + length unavailable_items

unfoldable pub is_dictionary_empty : List Fields → List Fields → List Fields → Bool
unfolding count_active_keywords
is_dictionary_empty safe_items injured_items unavailable_items =
    count_active_keywords safe_items injured_items unavailable_items == 0

length_zero : (xs : List Fields) → (length xs ≡ 0) ↔ (xs ≡ [])
length_zero [] = ((λ h. refl), (λ h. refl))
length_zero (x ∷ xs) = ((λ h. absurd (ground arith)), (λ h. cc))

-- `is_dictionary_empty` accepts exactly three empty lists.
pub is_dictionary_empty_iff :
    (safe injured unavailable : List Fields)
    → (is_dictionary_empty safe injured unavailable ≡ true)
      ↔ ((safe ≡ []) × (injured ≡ []) × (unavailable ≡ []))
unfolding is_dictionary_empty count_active_keywords
is_dictionary_empty_iff a b c = ground (arith, length_zero a, length_zero b, length_zero c)
