-- ===== src/Examples/Accounts.antt =====
-- Accounts, groups and masked telephone numbers at concrete inputs.
use emergency_contact.Prelude.{ℕ, ◌≤◌, ◌≡◌, ◌≢◌, ◌↔◌, true, List, [], ◌∷◌}
use emergency_contact.Prelude.Int.{ℤ, pos, ◌-ℤ◌}
use emergency_contact.Python.Values.{str, dict, Fields, end, field, lookup}
use emergency_contact.Auth.Lockout.{is_locked, count_newer, is_locked_iff}
use emergency_contact.Auth.Authorization.{is_authorized, administrator_group, cognito_groups_claim}
use emergency_contact.Auth.Authorization.Groups.{Grants, is_authorized_iff}

abbrev failures : List ℤ
failures = pos 5000 ∷ pos 900 ∷ pos 4000 ∷ []

abbrev failures_later : List ℤ
failures_later = pos 900 ∷ pos 5000 ∷ pos 4000 ∷ []

is_locked_iff_example :
    (is_locked failures (pos 5100) (pos 2) (pos 1800) ≡ true)
    ↔ (2 ≤ count_newer (pos 5100 -ℤ pos 1800) failures)
is_locked_iff_example = is_locked_iff failures (pos 5100) (pos 1800) 1

abbrev claims : Fields
claims = field "sub" (str "u1") (field "cognito:groups" (str "Operator Administrator") end)

is_authorized_iff_example :
    (is_authorized (dict claims) (str "Administrator") ≡ true)
    ↔ ((administrator_group ≢ "") × Grants administrator_group (lookup cognito_groups_claim claims))
is_authorized_iff_example = is_authorized_iff claims "Administrator"

-- +819012345
abbrev phone : List ℕ
phone = 43 ∷ 56 ∷ 49 ∷ 57 ∷ 48 ∷ 49 ∷ 50 ∷ 51 ∷ 52 ∷ 53 ∷ []
