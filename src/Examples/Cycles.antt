-- ===== src/Examples/Cycles.antt =====
-- A cycle of three employees: one is safe, one is still pending, one could not be understood.
use emergency_contact.Prelude.{
  ℕ, ◌+◌, String, ◌≡◌, refl, sym, ◌∙◌, ◌↔◌, true, false, List, [], ◌∷◌, length,
}
use emergency_contact.Prelude.Int.{ℤ, pos, is_negative}
use emergency_contact.Python.Results.{ok, ok_injective}
use emergency_contact.Python.Values.{
  Value, null, int, str, list, dict, nil, cons, Fields, end, field, get, mem, in_set, eq_text,
}
use emergency_contact.Retry.{should_retry}
use emergency_contact.Retry.Decision.{IsDue, should_retry_iff}
use emergency_contact.Cycle.Finalize.{
  Summary, require_list, is_cycle_completed, count_pending_responses, compute_summary,
  apply_timeout, count_rows, count_row, tally, call_attempts, coerce_call_attempts, status_of,
  require_hashable, add_one, same_key, count_pending, is_terminal, timeout_rewrites, require_text,
}
use emergency_contact.Cycle.Finalize.Completion.{
  completed_iff_none_pending, timeout_rewrites_pending,
}
use emergency_contact.Cycle.Finalize.Totals.{summary_partition, total}
use emergency_contact.Cycle.Finalize.Dispatch.{NoNegative}

abbrev response : String → String → ℕ → Fields
response id status attempts =
    field "employeeId" (str id)
      (field "voiceStatus" (str status) (field "callAttempts" (int (pos attempts)) end))

abbrev safe_row : Fields
safe_row = response "E1" "SAFE" 1

abbrev pending_row : Fields
pending_row = response "E2" "PENDING" 0

abbrev other_row : Fields
other_row = response "E3" "OTHER" 2

abbrev three_rows : List Fields
three_rows = safe_row ∷ pending_row ∷ other_row ∷ []

abbrev three_responses : Value
three_responses = list (cons (dict safe_row) (cons (dict pending_row) (cons (dict other_row) nil)))

abbrev three_summary : Summary
three_summary = record {
  target_total = 3;
  dispatched = 2;
  responded = 1;
  unreachable = 0;
  by_status = (str "SAFE", 1) ∷ (str "PENDING", 1) ∷ (str "OTHER", 1) ∷ [];
}

three_read : require_list three_responses ≡ ok three_rows
unfolding require_list
three_read = refl

three_summarised : compute_summary three_responses ≡ ok three_summary
unfolding compute_summary require_list count_rows count_row tally call_attempts coerce_call_attempts
    status_of require_hashable in_set mem eq_text add_one same_key
three_summarised = refl

three_pending : count_pending_responses three_responses ≡ ok 2
unfolding count_pending_responses require_list count_pending is_terminal in_set mem get
three_pending = refl

abbrev two_rewrites : List (String × String)
two_rewrites = ("E2", "UNREACHABLE") ∷ ("E3", "UNREACHABLE") ∷ []

three_rewritten : apply_timeout three_responses ≡ ok two_rewrites
unfolding apply_timeout require_list timeout_rewrites in_set mem get require_text
three_rewritten = refl

abbrev waiting : String
waiting = "PENDING"

attempts_counted :
    (row : Fields) (k : ℕ)
    → call_attempts row ≡ ok (pos k)
    → (n : ℤ) → call_attempts row ≡ ok n
    → is_negative n ≡ false
attempts_counted row k e n h = let same : n ≡ pos k = ok_injective (sym h ∙ e) in rw same

three_counted : NoNegative three_rows
unfolding call_attempts coerce_call_attempts
three_counted = (
  attempts_counted safe_row 1 refl,
  (attempts_counted pending_row 0 refl, (attempts_counted other_row 2 refl, tt)),
)

should_retry_iff_example :
    (should_retry (str "PENDING") null (int (pos 1)) (int (pos 3)) ≡ ok true)
    ↔ IsDue (str "PENDING") (int (pos 1)) (int (pos 3))
should_retry_iff_example = should_retry_iff (str "PENDING") null (int (pos 1)) (int (pos 3))

completed_iff_none_pending_example :
    (is_cycle_completed three_responses ≡ ok true)
    ↔ (count_pending_responses three_responses ≡ ok 0)
completed_iff_none_pending_example = completed_iff_none_pending three_responses

timeout_rewrites_pending_example :
    count_pending_responses three_responses ≡ ok (length two_rewrites)
unfolding mem get
timeout_rewrites_pending_example =
    timeout_rewrites_pending three_responses three_rows two_rewrites three_read
      (
        record { status = "SAFE"; stored = refl; known = refl },
        (
          record { status = "PENDING"; stored = refl; known = refl },
          (record { status = "OTHER"; stored = refl; known = refl }, tt),
        ),
      )
      three_rewritten

summary_partition_example :
    (three_summary.target_total ≡ 3)
    × (total three_summary.by_status ≡ 3)
    × (three_summary.responded + three_summary.unreachable + 2 ≡ 3)
summary_partition_example =
    summary_partition three_responses three_rows three_summary 2 three_read three_summarised
      three_pending

abbrev running_cycle : Fields
running_cycle = field "cycleId" (str "C1") (field "status" (str "RUNNING") end)
