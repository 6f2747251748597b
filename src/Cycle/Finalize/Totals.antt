-- ===== src/Cycle/Finalize/Totals.antt =====
-- The aggregates of `compute_summary` against the rows that they count.
use emergency_contact.Prelude.{
  ◌∙◌, ℕ, ◌+◌, String, ◌≡◌, Bool, true, false, List, [], ◌∷◌, arith, length, if◌then◌else◌, eq_iff,
  str_eq, Option-cases, Bool-cases, inl, inr,
}
use emergency_contact.Prelude.Int.{ℤ}
use emergency_contact.Python.Results.{ok, >>=-eq-ok, ◌>>=◌}
use emergency_contact.Python.Values.{Value, null, str, Fields, get, lookup, mem, in_set, eq_text}
use emergency_contact.Retry.{confirmed_voice_statuses, terminal_voice_statuses}
use emergency_contact.Cycle.Finalize.{
  require_list, is_terminal, count_pending, count_pending_responses, Summary, add_one, count_row,
  count_rows, compute_summary, call_attempts, require_hashable, tally, status_of,
}

-- The sum of a histogram's counts.
pub total : List (Value × ℕ) → ℕ
total [] = 0
total ((k, n) ∷ d) = n + total d

total-add_one : (k : Value) (d : List (Value × ℕ)) → total (add_one k d) ≡ total d + 1
unfolding total add_one
total-add_one k [] = omega arith
total-add_one k ((j, n) ∷ d) = ground (arith, total-add_one k d)

abbrev one_if : Bool → ℕ
one_if true = 1
one_if false = 0

-- A text is terminal if it is confirmed or UNREACHABLE, and never both.
status_weight :
    (s : String)
    → one_if (mem s terminal_voice_statuses)
      ≡ one_if (mem s confirmed_voice_statuses) + one_if (str_eq s "UNREACHABLE")
unfolding mem
status_weight s = elim (Bool-cases (str_eq s "UNREACHABLE")) [
  | inl e ↦ rw ((eq_iff s "UNREACHABLE").0 e)
  | inr e ↦ rw e (omega arith)
]

tally_responded :
    (s t : Summary) (n : ℤ) (v : Value) (b : Bool)
    → tally s n v ≡ ok t
    → in_set v terminal_voice_statuses ≡ ok b
    → t.responded + t.unreachable ≡ s.responded + s.unreachable + one_if b
unfolding tally in_set eq_text require_hashable
tally_responded s t n null b h k = ground arith
tally_responded s t n (str x) b h k = ground (arith, status_weight x)
tally_responded s t n _ b h k = ground arith

tally-total :
    (s t : Summary) (n : ℤ) (v : Value)
    → tally s n v ≡ ok t
    → (t.target_total ≡ s.target_total) × (total t.by_status ≡ total s.by_status + 1)
unfolding tally in_set require_hashable
tally-total s t n null h = ground (arith, total-add_one null s.by_status)
tally-total s t n v h = ground (arith, total-add_one v s.by_status)

-- A missing status counts as PENDING, which is not terminal.
terminal_of_status :
    (row : Fields) (b : Bool)
    → is_terminal row ≡ ok b
    → in_set (status_of row) terminal_voice_statuses ≡ ok b
unfolding is_terminal status_of in_set get mem
terminal_of_status row b h = elim (Option-cases (lookup "voiceStatus" row)) [
  | inl e ↦ rw e (rw e at h)
  | inr (v, e) ↦ rw e (rw e at h)
]

pending_of_cons :
    (row : Fields) (rows : List Fields) (m : ℕ)
    → count_pending (row ∷ rows) ≡ ok m
    → (b : Bool) × (p : ℕ) × (is_terminal row ≡ ok b)
      × (count_pending rows ≡ ok p)
      × (m + one_if b ≡ p + 1)
unfolding count_pending
pending_of_cons row rows m h =
    let (b, hb, rest) =
      >>=-eq-ok (is_terminal row) (λ b. count_pending rows >>= λ p. ok (if b then p else p + 1))
        h in
    let (p, hp, last) = >>=-eq-ok (count_pending rows) (λ p. ok (if b then p else p + 1)) rest in
    (b, p, hb, hp, ground arith)

-- What the loop adds to a summary over the rows.
record Counted (s t : Summary) (rows : List Fields) : Type 0 where
  target : t.target_total ≡ s.target_total
  histogram : total t.by_status ≡ total s.by_status + length rows
  closed :
      (n : ℕ)
      → count_pending rows ≡ ok n
      → t.responded + t.unreachable + n ≡ s.responded + s.unreachable + length rows

count_rows-Counted :
    (rows : List Fields) (s t : Summary) → count_rows s rows ≡ ok t → Counted s t rows
unfolding count_rows count_row
count_rows-Counted [] s t h = record {
  target = ground arith;
  histogram = ground arith;
  closed = unfold count_pending in λ n k. ground arith;
}
count_rows-Counted (row ∷ rows) s t h =
    let (u, hu, rest) = >>=-eq-ok (count_row s row) (λ u. count_rows u rows) h in
    let (n, hn, hs) = >>=-eq-ok (call_attempts row) (λ n. tally s n (status_of row)) hu in
    let ih = count_rows-Counted rows u t rest in
    let (same, more) = tally-total s u n (status_of row) hs in
    record {
      target = ih.target ∙ same;
      histogram = omega (arith, ih.histogram, more);
      closed = λ m k.
          let (b, p, hb, hp, hm) = pending_of_cons row rows m k in
          omega (
            arith,
            ih.closed p hp,
            tally_responded s u n (status_of row) b hs (terminal_of_status row b hb),
          );
    }

-- The counts of a summary partition the rows: the histogram's counts add up to the rows, and so do
-- the responded, the unreachable and the pending ones.
pub summary_partition :
    (responses : Value) (rows : List Fields) (t : Summary) (n : ℕ)
    → require_list responses ≡ ok rows
    → compute_summary responses ≡ ok t
    → count_pending_responses responses ≡ ok n
    → (t.target_total ≡ length rows)
      × (total t.by_status ≡ length rows)
      × (t.responded + t.unreachable + n ≡ length rows)
unfolding compute_summary count_pending_responses total
summary_partition responses rows t n e h k =
    let h' = rw e at h in
    let k' = rw e at k in
    let c = count_rows-Counted rows _ t h' in
    (c.target, omega (arith, c.histogram), omega (arith, c.closed n k'))
