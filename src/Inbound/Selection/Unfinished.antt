-- ===== src/Inbound/Selection/Unfinished.antt =====
-- A cycle that could not be started: `_create_cycle` of backend/lambdas/cycle_api/handler.py sets its
-- status to START_FAILED and writes no `completedAt`.
use emergency_contact.Prelude.{String, ◌≡◌, ◌≢◌, ◌⊎◌, inl, inr, true, Option, List, arith}
use emergency_contact.Python.Results.{ok, >>=-eq-ok, Result-cases}
use emergency_contact.Python.Values.{
  Value, null, bool, str, list, dict, Items, nil, cons, Fields, get, mem,
}
use emergency_contact.Inbound.Moments.{Moment}
use emergency_contact.Inbound.Selection.{
  Flow, validate_cycle, validate_cycles, parse_iso8601, decide_inbound_flow,
}

-- A START_FAILED row with no `completedAt`.
pub record IsUnfinished (row : Fields) : Type 0 where
  pub failed : get "status" row ≡ str "START_FAILED"
  pub never_completed : get "completedAt" row ≡ null

abbrev IsUnfinishedValue : Value → Type 0
IsUnfinishedValue (dict row) = IsUnfinished row
IsUnfinishedValue _ = ⊥

-- One of the items is such a row.
abbrev pub HasUnfinished : Items → Type 0
HasUnfinished nil = ⊥
HasUnfinished (cons v vs) = IsUnfinishedValue v ⊎ HasUnfinished vs

module _ (fromisoformat : String → Option Moment) where
  validate_unfinished :
      (v : Value) (c : Fields) → IsUnfinishedValue v → validate_cycle fromisoformat v ≢ ok c
  unfolding validate_cycle mem parse_iso8601
  validate_unfinished (dict row) c u h = ground (arith, u.failed, u.never_completed)
  validate_unfinished _ c u h = absurd u

  validate_cycles_unfinished :
      (vs : Items) (cs : List Fields) → HasUnfinished vs → validate_cycles fromisoformat vs ≢ ok cs
  unfolding validate_cycles
  validate_cycles_unfinished nil cs u h = absurd u
  validate_cycles_unfinished (cons v vs) cs u h =
      let (c, hc, rest) = >>=-eq-ok (validate_cycle fromisoformat v) _ h in
      let (ds, hd, last) = >>=-eq-ok (validate_cycles fromisoformat vs) _ rest in
      elim u [
        | inl here ↦ validate_unfinished v c here hc
        | inr there ↦ validate_cycles_unfinished vs ds there hd
      ]

-- While a START_FAILED row without `completedAt` is among the cycles, the decision raises for every
-- registered caller, also where another cycle is RUNNING.
pub decide_unfinished :
    (fromisoformat : String → Option Moment) (items : Items) (now : Moment) (window : Value)
    (r : Flow × Value)
    → HasUnfinished items
    → decide_inbound_flow fromisoformat (bool true) (list items) now window ≢ ok r
unfolding decide_inbound_flow
decide_unfinished f items now window r u h = elim (Result-cases (validate_cycles f items)) [
  | inl (rows, e) ↦ validate_cycles_unfinished f items rows u e
  | inr (x, e) ↦ ground arith
]
