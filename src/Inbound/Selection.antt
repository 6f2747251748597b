-- ===== src/Inbound/Selection.antt =====
-- backend/shared/inbound/cycle_selection.py: which flow an incoming call takes, and for which cycle.
-- `datetime.fromisoformat` is a parameter: the theorems hold for whatever it accepts.
pub mod Latest
pub mod Flows
pub mod Unfinished
use Prim.Native.Char.{code}
use Prim.Native.String.{◌++◌}
use emergency_contact.Prelude.{
  ℕ, String, Bool, true, false, not, ◌||◌, Option, none, some, List, [], ◌∷◌, str_eq, ltb, ◌==◌,
  if◌then◌else◌,
}
use emergency_contact.Prelude.Int.{ℤ, pos, negsuc}
use emergency_contact.Python.Results.{Result, ok, err, value_error, raise_if, ◌>>=◌, ◌>>◌}
use emergency_contact.Python.Values.{
  Value, null, bool, int, str, list, dict, Items, nil, cons, Fields, get, in_set, eq_text,
}
use emergency_contact.Python.Order.{text_lt}
use emergency_contact.Inbound.Moments.{Moment, add_days, not_after}

pub data Flow : Type 0 where
  not_registered no_cycle cycle_terminated active_cycle : Flow

abbrev pub valid_cycle_statuses : List String
valid_cycle_statuses = "RUNNING" ∷ "COMPLETED" ∷ "TIMEOUT" ∷ "START_FAILED" ∷ []

abbrev pub terminal_statuses : List String
terminal_statuses = "TIMEOUT" ∷ "START_FAILED" ∷ []

abbrev pub max_eligibility_window_days : ℕ
max_eligibility_window_days = 365

-- value.endswith("Z")
unfoldable pub ends_with_z : String → Bool
ends_with_z String.[] = false
ends_with_z (String.◌∷◌ c String.[]) = code c == b'Z'
ends_with_z (String.◌∷◌ c s) = ends_with_z s

-- value.replace("Z", "+00:00")
replace_z : String → String
replace_z String.[] = ""
replace_z (String.◌∷◌ c s) =
    let rest = replace_z s in if code c == b'Z' then "+00:00" ++ rest else String.◌∷◌ c rest

-- isinstance(v, str) and v
unfoldable pub require_text : Value → Result String
require_text (str s) = if str_eq s "" then err value_error else ok s
require_text _ = err value_error

abbrev require_bool : Value → Result Bool
require_bool (bool b) = ok b
require_bool _ = err value_error

abbrev require_items : Value → Result Items
require_items (list vs) = ok vs
require_items _ = err value_error

abbrev require_dict : Value → Result Fields
require_dict (dict d) = ok d
require_dict _ = err value_error

abbrev pub require_parsed : Option Moment → Result Moment
require_parsed none = err value_error
require_parsed (some t) = elim t.offset [ none ↦ err value_error | some _ ↦ ok t ]

-- An int, not a bool, in [1, 365].
abbrev require_window : Value → Result ℕ
require_window (int (pos n)) =
    if ltb n 1 || ltb max_eligibility_window_days n then err value_error else ok n
require_window _ = err value_error

abbrev is_aware : Moment → Bool
is_aware t = elim t.offset [ none ↦ false | some _ ↦ true ]

-- c["status"] == s
unfoldable pub has_status : String → Fields → Bool
unfolding get eq_text
has_status s c = eq_text (get "status" c) s

-- c["status"] in _TERMINAL_STATUSES, of a validated row
unfoldable pub is_terminated : Fields → Bool
is_terminated c = has_status "TIMEOUT" c || has_status "START_FAILED" c

-- c[key_attr], which validation has found to be a text
unfoldable pub key_of : String → Fields → String
unfolding get
key_of attr c = elim (get attr c) [ str s ↦ s | _ ↦ "" ]

-- key(a) < key(b)
unfoldable pub key_lt : String → Fields → Fields → Bool
key_lt attr a b = text_lt (key_of attr a) (key_of attr b)

-- `max` keeps the first of the greatest elements.
unfoldable pub latest_from : String → Fields → List Fields → Fields
latest_from attr best [] = best
latest_from attr best (c ∷ cs) = latest_from attr (if key_lt attr best c then c else best) cs

unfoldable pub select_latest : String → List Fields → Option Fields
select_latest attr [] = none
select_latest attr (c ∷ cs) = some (latest_from attr c cs)

unfoldable pub running_of : List Fields → List Fields
running_of [] = []
running_of (c ∷ cs) = let rest = running_of cs in if has_status "RUNNING" c then c ∷ rest else rest

module _ (fromisoformat : String → Option Moment) where
  unfoldable pub parse_iso8601 : Value → Result Moment
  unfolding require_text ends_with_z replace_z
  parse_iso8601 value = do
    s ← require_text value
    require_parsed (fromisoformat (if ends_with_z s then replace_z s else s))

  unfoldable pub validate_cycle : Value → Result Fields
  unfolding require_text get in_set
  validate_cycle cycle = do
    c ← require_dict cycle
    cycle_id ← require_text (get "cycleId" c)
    valid ← in_set (get "status" c) valid_cycle_statuses
    raise_if (not valid) value_error
    started ← parse_iso8601 (get "startedAt" c)
    terminal ← in_set (get "status" c) terminal_statuses
    if terminal || has_status "COMPLETED" c
        then (do completed ← parse_iso8601 (get "completedAt" c); ok c)
        else ok c

  unfoldable pub validate_cycles : Items → Result (List Fields)
  validate_cycles nil = ok []
  validate_cycles (cons v vs) = do c ← validate_cycle v; cs ← validate_cycles vs; ok (c ∷ cs)

  -- timestamp + window >= now
  unfoldable pub is_within_window : Value → Moment → ℕ → Result Bool
  is_within_window timestamp now window = do
    t ← parse_iso8601 timestamp
    closes ← add_days t window
    ok (not_after now closes)

  -- The rows that pass `test` and were completed within the window.
  pub recent : (Fields → Bool) → Moment → ℕ → List Fields → Result (List Fields)
  recent test now window [] = ok []
  recent test now window (c ∷ cs) = do
    keep ← (if test c then is_within_window (get "completedAt" c) now window else ok false)
    rest ← recent test now window cs
    ok (if keep then c ∷ rest else rest)

  -- Step 3 and 4: a recent TIMEOUT or START_FAILED, or nothing.
  pub terminated_step : Moment → ℕ → List Fields → Result (Flow × Value)
  terminated_step now window rows = do
    found ← recent is_terminated now window rows
    ok (elim (select_latest "completedAt" found) [
      | none ↦ (no_cycle, null)
      | some c ↦ (cycle_terminated, get "cycleId" c)
    ])

  -- Step 2: a recent COMPLETED cycle.
  pub completed_step : Moment → ℕ → List Fields → Result (Flow × Value)
  completed_step now window rows = do
    found ← recent (has_status "COMPLETED") now window rows
    elim (select_latest "completedAt" found) [
      | none ↦ terminated_step now window rows
      | some c ↦ ok (active_cycle, get "cycleId" c)
    ]

  -- Step 1: any RUNNING cycle wins.
  unfoldable pub running_step : Moment → ℕ → List Fields → Result (Flow × Value)
  running_step now window rows = elim (select_latest "startedAt" (running_of rows)) [
    | none ↦ completed_step now window rows
    | some c ↦ ok (active_cycle, get "cycleId" c)
  ]

  unfoldable pub decide_inbound_flow : Value → Value → Moment → Value → Result (Flow × Value)
  decide_inbound_flow employee_matched cycles now eligibility_window_days = do
    matched ← require_bool employee_matched
    items ← require_items cycles
    raise_if (not (is_aware now)) value_error
    window ← require_window eligibility_window_days
    if not matched
        then ok (not_registered, null)
        else (do rows ← validate_cycles items; running_step now window rows)
