-- ===== src/Employee/Duplicate.antt =====
-- backend/shared/employee/duplicate.py: whether a phone number is taken already.
use emergency_contact.Prelude.{
  String, ◌≡◌, ◌≢◌, refl, ◌↔◌, ◌⊎◌, inl, inr, Bool, true, false, List, [], ◌∷◌, arith, str_eq,
  eq_iff, eq_refl, sym, subst, ◌∙◌, if◌then◌else◌, Bool-cases,
}
use emergency_contact.Python.Values.{Value, str, eq_text, str_injective}

pub any_equal : List Value → String → Bool
unfolding eq_text
any_equal [] new_phone = false
any_equal (phone ∷ phones) new_phone =
    if eq_text phone new_phone then true else any_equal phones new_phone

unfoldable pub find_duplicate_phone : List Value → Value → Bool
find_duplicate_phone existing_phones (str new_phone) =
    if str_eq new_phone "" then false else any_equal existing_phones new_phone
find_duplicate_phone existing_phones _ = false

-- One of the values is the text.
abbrev pub Holds : String → List Value → Type 0
Holds s [] = ⊥
Holds s (v ∷ vs) = (v ≡ str s) ⊎ Holds s vs

text_of_eq : (v : Value) (s : String) → eq_text v s ≡ true → v ≡ str s
unfolding eq_text
text_of_eq (str t) s h = ground (arith, eq_iff t s)
text_of_eq _ s h = absurd (ground arith)

eq_of_text : (v : Value) (s : String) → v ≡ str s → eq_text v s ≡ true
unfolding eq_text
eq_of_text v s e = rw e (rw eq_refl)

Holds-of_any : (vs : List Value) (s : String) → any_equal vs s ≡ true → Holds s vs
unfolding any_equal
Holds-of_any [] s h = cc
Holds-of_any (v ∷ vs) s h = elim (Bool-cases (eq_text v s)) [
  | inl e ↦ inl (text_of_eq v s e)
  | inr e ↦ inr (Holds-of_any vs s (rw e at h))
]

any_of_Holds : (vs : List Value) (s : String) → Holds s vs → any_equal vs s ≡ true
unfolding any_equal
any_of_Holds [] s h = absurd h
any_of_Holds (v ∷ vs) s (inl e) = rw (eq_of_text v s e)
any_of_Holds (v ∷ vs) s (inr m) = ground (arith, any_of_Holds vs s m)

-- A new number is a duplicate exactly when it is a text that is not empty and one of the existing
-- values is that text.
pub find_duplicate_phone_iff :
    (existing_phones : List Value) (new_phone : Value)
    → (find_duplicate_phone existing_phones new_phone ≡ true)
      ↔ ((s : String) × (new_phone ≡ str s) × (s ≢ "") × Holds s existing_phones)
unfolding find_duplicate_phone
find_duplicate_phone_iff phones (str s) = elim (Bool-cases (str_eq s "")) [
  | inl e ↦ rw e (λ h. cc, λ (t, q, n, m). absurd (n (str_injective (sym q) ∙ (eq_iff s "").0 e)))
  | inr e ↦ rw e (
    λ h. (s, refl, (λ q. cc (e, (eq_iff s "").1 q)), Holds-of_any phones s h),
    λ (t, q, n, m). any_of_Holds phones s (subst (λ x. Holds x phones) (sym (str_injective q)) m),
  )
]
find_duplicate_phone_iff phones _ =
    (λ h. absurd (ground arith), λ (t, q, n, m). absurd (ground arith))
