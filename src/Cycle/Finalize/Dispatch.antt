-- ===== src/Cycle/Finalize/Dispatch.antt =====
-- The 30-minute check against the summary.
use emergency_contact.Prelude.{
  ℕ, ◌+◌, ◌<◌, ◌≡◌, ◌↔◌, ◌⊎◌, true, false, List, [], ◌∷◌, arith, length,
}
use emergency_contact.Prelude.Int.{ℤ, pos, negsuc, is_negative}
use emergency_contact.Python.Results.{ok, >>=-eq-ok}
use emergency_contact.Python.Values.{Value, Fields}
use emergency_contact.Cycle.Finalize.{
  require_list, Summary, count_row, count_rows, compute_summary, call_attempts, tally, status_of,
  some_undispatched, is_first_dispatch_incomplete,
}

-- No row has a negative number of attempts.
abbrev pub NoNegative : List Fields → Type 0
NoNegative [] = Unit
NoNegative (row ∷ rows) =
    ((n : ℤ) → call_attempts row ≡ ok n → is_negative n ≡ false) × NoNegative rows

-- The answer of the 30-minute check beside what the loop of the summary counts.
abbrev Agrees : Summary → Summary → List Fields → Type 0
Agrees s t rows =
    (some_undispatched rows ≡ ok false) × (t.dispatched ≡ s.dispatched + length rows)
    ⊎ (some_undispatched rows ≡ ok true) × (t.dispatched < s.dispatched + length rows)

dispatched-tally :
    (s t : Summary) (n : ℕ) (v : Value)
    → tally s (pos n) v ≡ ok t
    → (n ≡ 0) × (t.dispatched ≡ s.dispatched) ⊎ (0 < n) × (t.dispatched ≡ s.dispatched + 1)
unfolding tally
dispatched-tally s t n v h = ground arith

dispatched_bound :
    (s t : Summary) (rows : List Fields)
    → count_rows s rows ≡ ok t
    → t.dispatched < s.dispatched + length rows + 1
unfolding count_rows count_row tally
dispatched_bound s t [] h = ground arith
dispatched_bound s t (row ∷ rows) h =
    let (u, hu, rest) = >>=-eq-ok (count_row s row) (λ u. count_rows u rows) h in
    let (n, hn, hs) = >>=-eq-ok (call_attempts row) (λ n. tally s n (status_of row)) hu in
    ground (arith, dispatched_bound u t rows rest)

undispatched_step :
    (s t u : Summary) (row : Fields) (rows : List Fields) (n : ℤ)
    → is_negative n ≡ false
    → call_attempts row ≡ ok n
    → tally s n (status_of row) ≡ ok u
    → count_rows u rows ≡ ok t
    → Agrees u t rows
    → Agrees s t (row ∷ rows)
unfolding some_undispatched
undispatched_step s t u row rows (pos n) c hn hs rest ih =
    ground (arith, dispatched-tally s u n (status_of row) hs, dispatched_bound u t rows rest)
undispatched_step s t u row rows (negsuc n) c hn hs rest ih = absurd (ground arith)

agrees :
    (s t : Summary) (rows : List Fields)
    → NoNegative rows
    → count_rows s rows ≡ ok t
    → Agrees s t rows
unfolding count_rows count_row some_undispatched
agrees s t [] all h = ground arith
agrees s t (row ∷ rows) all h =
    let (u, hu, rest) = >>=-eq-ok (count_row s row) (λ u. count_rows u rows) h in
    let (n, hn, hs) = >>=-eq-ok (call_attempts row) (λ n. tally s n (status_of row)) hu in
    undispatched_step s t u row rows n (all.0 n hn) hn hs rest (agrees u t rows all.1 rest)

-- Where no number of attempts is negative and the summary exists, the 30-minute warning is due
-- exactly when fewer rows are dispatched than there are.
pub first_dispatch_incomplete_iff :
    (responses : Value) (rows : List Fields) (t : Summary)
    → require_list responses ≡ ok rows
    → NoNegative rows
    → compute_summary responses ≡ ok t
    → (is_first_dispatch_incomplete responses ≡ ok true) ↔ (t.dispatched < length rows)
unfolding compute_summary is_first_dispatch_incomplete some_undispatched
first_dispatch_incomplete_iff responses [] t e all h = let h' = rw e at h in rw e (ground arith)
first_dispatch_incomplete_iff responses (row ∷ rows) t e all h =
    let h' = rw e at h in rw e (ground (arith, agrees _ t (row ∷ rows) all h'))
