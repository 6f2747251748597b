-- ===== src/Cycle/Finalize/Completion.antt =====
-- When a cycle is over, and which rows the timeout rewrites.
use emergency_contact.Prelude.{
  String, ◌≡◌, refl, ◌↔◌, inl, inr, Bool, true, not, List, [], ◌∷◌, arith, length,
}
use emergency_contact.Python.Results.{ok, Result-cases}
use emergency_contact.Python.Values.{Value, str, Fields, get, mem, in_set}
use emergency_contact.Python.Texts.{each_mem}
use emergency_contact.Retry.{valid_voice_status_values, terminal_voice_statuses}
use emergency_contact.Cycle.Finalize.{
  require_list, is_terminal, all_terminal, is_cycle_completed, count_pending,
  count_pending_responses, timeout_rewrites, apply_timeout, timeout_rewrite_voice_statuses,
}

none_pending : (rows : List Fields) → all_terminal rows ≡ ok true → count_pending rows ≡ ok 0
unfolding all_terminal count_pending
none_pending [] h = refl
none_pending (row ∷ rows) h = ground (arith, none_pending rows)

all_of_none_pending : (rows : List Fields) → count_pending rows ≡ ok 0 → all_terminal rows ≡ ok true
unfolding all_terminal count_pending
all_of_none_pending [] h = refl
all_of_none_pending (row ∷ rows) h = ground (arith, all_of_none_pending rows)

-- A cycle is complete exactly when the count of its pending responses is zero.
pub completed_iff_none_pending :
    (responses : Value)
    → (is_cycle_completed responses ≡ ok true) ↔ (count_pending_responses responses ≡ ok 0)
unfolding is_cycle_completed count_pending_responses
completed_iff_none_pending responses = elim (Result-cases (require_list responses)) [
  | inl (rows, e) ↦ rw e (none_pending rows, all_of_none_pending rows)
  | inr (x, e) ↦ rw e ((λ h. cc), (λ h. cc))
]

-- The row has a status of the vocabulary.
pub record IsRecognised (row : Fields) : Type 0 where
  pub status : String
  pub stored : get "voiceStatus" row ≡ str status
  pub known : mem status valid_voice_status_values ≡ true

abbrev pub AllRecognised : List Fields → Type 0
AllRecognised [] = Unit
AllRecognised (row ∷ rows) = IsRecognised row × AllRecognised rows

-- Of the vocabulary, the timeout rewrites exactly what is not terminal.
rewrite_iff_open :
    (s : String)
    → mem s valid_voice_status_values ≡ true
    → mem s timeout_rewrite_voice_statuses ≡ not (mem s terminal_voice_statuses)
unfolding mem
rewrite_iff_open =
    each_mem (λ s. mem s timeout_rewrite_voice_statuses ≡ not (mem s terminal_voice_statuses))
      valid_voice_status_values (refl, (refl, (refl, (refl, (refl, (refl, tt))))))

row_status :
    (row : Fields)
    → IsRecognised row
    → (b : Bool) × (is_terminal row ≡ ok b)
      × (in_set (get "voiceStatus" row) timeout_rewrite_voice_statuses ≡ ok (not b))
unfolding is_terminal
row_status row r = (
  mem r.status terminal_voice_statuses,
  rw r.stored,
  rw (r.stored, rewrite_iff_open r.status r.known),
)

rewrites_of_rows :
    (rows : List Fields) (out : List (String × String))
    → AllRecognised rows
    → timeout_rewrites rows ≡ ok out
    → count_pending rows ≡ ok (length out)
unfolding timeout_rewrites count_pending
rewrites_of_rows [] out all h = ground arith
rewrites_of_rows (row ∷ rows) out all h =
    let (b, t, r) = row_status row all.0 in
    elim (Result-cases (timeout_rewrites rows)) [
      | inl (o, e) ↦ let ih = rewrites_of_rows rows o all.1 e in ground arith
      | inr (x, e) ↦ ground arith
    ]

-- Where every row has a status of the vocabulary, the timeout rewrites as many rows as are pending.
pub timeout_rewrites_pending :
    (responses : Value) (rows : List Fields) (out : List (String × String))
    → require_list responses ≡ ok rows
    → AllRecognised rows
    → apply_timeout responses ≡ ok out
    → count_pending_responses responses ≡ ok (length out)
unfolding apply_timeout count_pending_responses
timeout_rewrites_pending responses rows out e all h =
    let h' = rw e at h in rw e (rewrites_of_rows rows out all h')
