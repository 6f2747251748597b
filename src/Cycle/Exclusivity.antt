-- ===== src/Cycle/Exclusivity.antt =====
-- backend/shared/cycle/exclusivity.py: a cycle starts only while none is running.
use emergency_contact.Prelude.{
  ℕ, ◌+◌, ◌≡◌, ◌↔◌, Bool, true, not, List, [], ◌∷◌, ◌&&◌, arith, if◌then◌else◌,
}
use emergency_contact.Python.Results.{Result, ok, ◌>>=◌}
use emergency_contact.Python.Values.{Value, Fields, get, eq_text}
use emergency_contact.Cycle.Finalize.{require_list}

-- row.get("status") == "RUNNING"
unfoldable pub is_running : Fields → Bool
unfolding get eq_text
is_running row = eq_text (get "status" row) "RUNNING"

-- all(… for row in rows)
unfoldable pub none_running : List Fields → Bool
none_running [] = true
none_running (row ∷ rows) = not (is_running row) && none_running rows

-- `_require_list_of_dict` has the text of finalize.py's `_require_list`.
unfoldable pub can_start_cycle : Value → Result Bool
can_start_cycle cycles = do rows ← require_list cycles; ok (none_running rows)

-- Rows in the state RUNNING.
pub count_running : List Fields → ℕ
count_running [] = 0
count_running (row ∷ rows) = if is_running row then count_running rows + 1 else count_running rows

none_running_iff : (rows : List Fields) → (none_running rows ≡ true) ↔ (count_running rows ≡ 0)
unfolding none_running count_running
none_running_iff [] = ground arith
none_running_iff (row ∷ rows) = ground (arith, none_running_iff rows)

-- On a list of rows a new cycle may start exactly when the number of RUNNING rows is zero.
pub can_start_iff :
    (cycles : Value) (rows : List Fields)
    → require_list cycles ≡ ok rows
    → (can_start_cycle cycles ≡ ok true) ↔ (count_running rows ≡ 0)
unfolding can_start_cycle
can_start_iff cycles rows e = rw e (ground (arith, none_running_iff rows))
