-- ===== src/Cycle/Finalize.antt =====
-- backend/shared/cycle/finalize.py: the aggregates of a cycle's response rows, and the rows that
-- the timeout rewrites.
pub mod Completion
pub mod Totals
pub mod Histogram
pub mod Dispatch
use emergency_contact.Prelude.{
  ℕ, ◌+◌, ◌^◌, String, Bool, true, false, not, Option, none, some, List, [], ◌∷◌, length, is_empty,
  str_eq, ◌&&◌, if◌then◌else◌,
}
use emergency_contact.Prelude.Int.{ℤ, pos, ◌*ℤ◌, eq_ℤ, ltb_ℤ}
use emergency_contact.Python.Results.{Result, ok, err, type_error, ◌>>=◌, ◌>>◌}
use emergency_contact.Python.Values.{
  Value, null, bool, int, decimal, str, list, dict, Items, nil, cons, Fields, lookup, get, get_or,
  in_set, eq_text, truncate,
}
use emergency_contact.Retry.{confirmed_voice_statuses, terminal_voice_statuses}

abbrev pub timeout_rewrite_voice_statuses : List String
timeout_rewrite_voice_statuses = "PENDING" ∷ "OTHER" ∷ []

dicts_of : Items → Result (List Fields)
dicts_of nil = ok []
dicts_of (cons (dict row) rest) = do rows ← dicts_of rest; ok (row ∷ rows)
dicts_of (cons _ rest) = err type_error

unfoldable pub require_list : Value → Result (List Fields)
unfolding dicts_of
require_list (list responses) = dicts_of responses
require_list _ = err type_error

unfoldable pub coerce_call_attempts : Value → Result ℤ
unfolding truncate
coerce_call_attempts (int n) = ok n
coerce_call_attempts (decimal n places) = ok (truncate n places)
coerce_call_attempts _ = err type_error

-- row.get("callAttempts", 0), coerced
unfoldable pub call_attempts : Fields → Result ℤ
unfolding coerce_call_attempts
call_attempts row = coerce_call_attempts (get_or (lookup "callAttempts" row) (int (pos 0)))

-- row.get("voiceStatus") not in _TERMINAL_VOICE_STATUSES, negated
unfoldable pub is_terminal : Fields → Result Bool
unfolding in_set get
is_terminal row = in_set (get "voiceStatus" row) terminal_voice_statuses

-- The loop of `is_cycle_completed` leaves at the first row that is not terminal.
unfoldable pub all_terminal : List Fields → Result Bool
all_terminal [] = ok true
all_terminal (row ∷ rows) = do
  terminal ← is_terminal row
  if terminal then all_terminal rows else ok false

unfoldable pub is_cycle_completed : Value → Result Bool
is_cycle_completed responses = do rows ← require_list responses; all_terminal rows

unfoldable pub count_pending : List Fields → Result ℕ
count_pending [] = ok 0
count_pending (row ∷ rows) = do
  terminal ← is_terminal row
  n ← count_pending rows
  ok (if terminal then n else n + 1)

unfoldable pub count_pending_responses : Value → Result ℕ
count_pending_responses responses = do rows ← require_list responses; count_pending rows

pub record Summary : Type 0 where
  pub target_total : ℕ
  pub dispatched : ℕ
  pub responded : ℕ
  pub unreachable : ℕ
  pub by_status : List (Value × ℕ)

-- A number, a bool included, as a coefficient and its decimal places.
abbrev number_of : Value → Option (ℤ × ℕ)
number_of (bool false) = some (pos 0, 0)
number_of (bool true) = some (pos 1, 0)
number_of (int n) = some (n, 0)
number_of (decimal n places) = some (n, places)
number_of _ = none

abbrev same_number : Option (ℤ × ℕ) → Option (ℤ × ℕ) → Bool
same_number (some (m, p)) (some (n, q)) = eq_ℤ (m *ℤ pos (10 ^ q)) (n *ℤ pos (10 ^ p))
same_number _ _ = false

-- Whether two values are one key of a dict: numbers are, if they are equal, whatever their types.
unfoldable pub same_key : Value → Value → Bool
unfolding ◌*ℤ◌
same_key null null = true
same_key (str s) (str t) = str_eq s t
same_key a b = same_number (number_of a) (number_of b)

-- by_status[status] = by_status.get(status, 0) + 1
unfoldable pub add_one : Value → List (Value × ℕ) → List (Value × ℕ)
add_one k [] = (k, 1) ∷ []
add_one k ((j, n) ∷ d) = if same_key j k then (j, n + 1) ∷ d else (j, n) ∷ add_one k d

-- hash(v)
unfoldable pub require_hashable : Value → Result (Unit {0})
require_hashable (list vs) = err type_error
require_hashable (dict d) = err type_error
require_hashable _ = ok tt

-- One turn of the loop of `compute_summary`, from the row's attempts and status.
unfoldable pub tally : Summary → ℤ → Value → Result Summary
tally s attempts status = do
  require_hashable status
  confirmed ← in_set status confirmed_voice_statuses
  ok (record s {
    dispatched = if ltb_ℤ (pos 0) attempts then s.dispatched + 1 else s.dispatched;
    responded = if confirmed then s.responded + 1 else s.responded;
    unreachable = if eq_text status "UNREACHABLE" then s.unreachable + 1 else s.unreachable;
    by_status = add_one status s.by_status;
  })

-- row.get("voiceStatus", "PENDING")
unfoldable pub status_of : Fields → Value
status_of row = get_or (lookup "voiceStatus" row) (str "PENDING")

unfoldable pub count_row : Summary → Fields → Result Summary
count_row s row = do attempts ← call_attempts row; tally s attempts (status_of row)

unfoldable pub count_rows : Summary → List Fields → Result Summary
count_rows s [] = ok s
count_rows s (row ∷ rows) = do t ← count_row s row; count_rows t rows

unfoldable pub compute_summary : Value → Result Summary
compute_summary responses = do
  rows ← require_list responses
  count_rows
      (record {
        target_total = length rows;
        dispatched = 0;
        responded = 0;
        unreachable = 0;
        by_status = [];
      })
      rows

-- isinstance(v, str) and v
unfoldable pub require_text : Value → Result String
require_text (str s) = if str_eq s "" then err type_error else ok s
require_text _ = err type_error

unfoldable pub timeout_rewrites : List Fields → Result (List (String × String))
timeout_rewrites [] = ok []
timeout_rewrites (row ∷ rows) = do
  rewrite ← in_set (get "voiceStatus" row) timeout_rewrite_voice_statuses
  let rest = timeout_rewrites rows
  if not rewrite then rest else do
    employee_id ← require_text (get "employeeId" row)
    out ← rest
    ok ((employee_id, "UNREACHABLE") ∷ out)

unfoldable pub apply_timeout : Value → Result (List (String × String))
apply_timeout responses = do rows ← require_list responses; timeout_rewrites rows

pub some_undispatched : List Fields → Result Bool
some_undispatched [] = ok false
some_undispatched (row ∷ rows) = do
  attempts ← call_attempts row
  if eq_ℤ attempts (pos 0) then ok true else some_undispatched rows

-- The early return on an empty list is the loop's answer on it.
unfoldable pub is_first_dispatch_incomplete : Value → Result Bool
is_first_dispatch_incomplete responses = do
  rows ← require_list responses
  if is_empty rows then ok false else some_undispatched rows
