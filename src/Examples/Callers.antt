-- ===== src/Examples/Callers.antt =====
-- Incoming calls, their cycles and their list.
use emergency_contact.Prelude.{ℕ, ◌*◌, String, ◌≡◌, refl, Option, some, List, [], ◌∷◌, arith}
use emergency_contact.Prelude.Int.{pos}
use emergency_contact.Python.Results.{ok}
use emergency_contact.Python.Values.{
  Value, str, dict, Items, nil, cons, Fields, end, field, get, in_set, mem, eq_text,
}
use emergency_contact.Inbound.Moments.{Moment, microseconds_per_day}
use emergency_contact.Inbound.Selection.{
  Flow, active_cycle, decide_inbound_flow, validate_cycles, validate_cycle, parse_iso8601,
  running_step, running_of, has_status, select_latest, latest_from, require_text,
}
use emergency_contact.Inbound.Selection.Flows.{Justified, decide-Justified}
use emergency_contact.Inbound.Selection.Unfinished.{IsUnfinished}
use emergency_contact.Inbound.Listing.Pages.{read_pages, read_all}

abbrev noon : Moment
noon = record { local = 730000 * microseconds_per_day; offset = some (pos 0) }

-- A parser that knows one text.
abbrev noon_only : String → Option Moment
noon_only s = some noon

abbrev running : Fields
running =
    field "cycleId" (str "C1")
      (field "status" (str "RUNNING") (field "startedAt" (str "1999-09-09T00:00:00Z") end))

abbrev start_failed : Fields
start_failed =
    field "cycleId" (str "C2")
      (field "status" (str "START_FAILED") (field "startedAt" (str "1999-09-09T00:00:00Z") end))

abbrev one_running : Items
one_running = cons (dict running) nil

abbrev one_failed : Items
one_failed = cons (dict running) (cons (dict start_failed) nil)

abbrev running_answer : Flow × Value
running_answer = (active_cycle, str "C1")

decide-Justified_example : Justified noon_only noon 30 (running ∷ []) running_answer
unfolding validate_cycles validate_cycle parse_iso8601 in_set mem get eq_text decide_inbound_flow
    running_step running_of has_status select_latest latest_from require_text
decide-Justified_example =
    decide-Justified noon_only one_running noon 30 (running ∷ []) running_answer refl refl

failed_row-IsUnfinished : IsUnfinished start_failed
unfolding get
failed_row-IsUnfinished = record { failed = refl; never_completed = refl }

abbrev three_items : List ℕ
three_items = 1 ∷ 2 ∷ 3 ∷ []

read_all_example : read_pages 3 three_items 2 (some 0) ≡ ok three_items
read_all_example = read_all three_items 2 (omega arith)

abbrev contact : String → Fields
contact received = field "receivedAt" (str received) end

abbrev contacts : List Fields
contacts = contact "2026-01-01" ∷ contact "2026-01-02" ∷ end ∷ []
