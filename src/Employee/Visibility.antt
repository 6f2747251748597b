-- ===== src/Employee/Visibility.antt =====
-- backend/shared/employee/visibility.py: a record is hidden if it is deleted or has no phone number.
use emergency_contact.Prelude.{
  String, ◌≡◌, ◌≢◌, refl, ◌↔◌, Bool, true, false, not, arith, str_eq, eq_iff, subst, sym,
  if◌then◌else◌,
}
use emergency_contact.Python.Values.{Value, bool, str, dict, Fields, get, dict_injective}

-- v is True
abbrev is_true : Value → Bool
is_true (bool b) = b
is_true _ = false

-- isinstance(v, str) and v != ""
unfoldable pub is_phone : Value → Bool
is_phone (str s) = not (str_eq s "")
is_phone _ = false

unfoldable pub is_visible : Value → Bool
unfolding get is_phone
is_visible (dict employee) =
    if is_true (get "deleted" employee) then false else is_phone (get "phoneNumber" employee)
is_visible _ = false

-- A record with a phone number that the delete handler has not marked.
pub record IsListed (employee : Fields) : Type 0 where
  pub kept : get "deleted" employee ≢ bool true
  pub phone : String
  pub stored : get "phoneNumber" employee ≡ str phone
  pub some_digits : phone ≢ ""

kept_iff : (v : Value) → (is_true v ≡ false) ↔ (v ≢ bool true)
kept_iff (bool true) = (λ h. cc, λ h. absurd (h refl))
kept_iff (bool false) = (λ h. λ e. cc, λ h. refl)
kept_iff _ = (λ h. λ e. cc, λ h. refl)

phone_of : (v : Value) → is_phone v ≡ true → (s : String) × (v ≡ str s) × (s ≢ "")
unfolding is_phone
phone_of (str s) h = (s, refl, λ e. ground (arith, eq_iff s ""))
phone_of _ h = absurd (ground arith)

visible_fields : (d : Fields) → (is_visible (dict d) ≡ true) ↔ IsListed d
unfolding is_visible
visible_fields d = (listed, visible)
  where
    listed : is_visible (dict d) ≡ true → IsListed d
    listed h =
        let (s, e, n) = phone_of (get "phoneNumber" d) (ground arith) in
        record {
          kept = (kept_iff (get "deleted" d)).0 (ground arith);
          phone = s;
          stored = e;
          some_digits = n;
        }

    visible : IsListed d → is_visible (dict d) ≡ true
    visible l =
        rw ((kept_iff (get "deleted" d)).1 l.kept)
          (rw l.stored (ground (arith, eq_iff l.phone "", l.some_digits)))

-- A value is visible exactly when it is a record whose `deleted` is not True and whose phone number
-- is a text that is not empty.
pub is_visible_iff :
    (employee : Value)
    → (is_visible employee ≡ true) ↔ ((d : Fields) × (employee ≡ dict d) × IsListed d)
unfolding is_visible
is_visible_iff (dict d) = (
  λ h. (d, refl, (visible_fields d).0 h),
  λ (c, e, l). (visible_fields d).1 (subst IsListed (dict_injective (sym e)) l),
)
is_visible_iff _ = (λ h. cc, λ (c, e, l). absurd (ground arith))
