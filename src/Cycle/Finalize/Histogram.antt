-- ===== src/Cycle/Finalize/Histogram.antt =====
-- The histogram of `compute_summary`, key by key.
use emergency_contact.Prelude.{
  ℕ, ◌+◌, String, ◌≡◌, refl, Bool, true, false, List, [], ◌∷◌, arith, if◌then◌else◌, eq_iff,
}
use emergency_contact.Prelude.Int.{ℤ}
use emergency_contact.Python.Results.{ok, >>=-eq-ok}
use emergency_contact.Python.Values.{Value, null, bool, str, Fields, in_set, eq_text}
use emergency_contact.Cycle.Finalize.{
  require_list, Summary, same_key, add_one, count_row, count_rows, compute_summary, call_attempts,
  require_hashable, tally, status_of,
}

-- by_status.get(s, 0)
pub count_at : String → List (Value × ℕ) → ℕ
count_at s [] = 0
count_at s ((k, n) ∷ d) = if same_key k (str s) then n else count_at s d

-- Rows whose status, PENDING if it is missing, is the text `s`.
pub rows_with : String → List Fields → ℕ
rows_with s [] = 0
rows_with s (row ∷ rows) =
    if eq_text (status_of row) s then rows_with s rows + 1 else rows_with s rows

same_key_text : (v : Value) (s : String) → same_key v (str s) ≡ eq_text v s
unfolding same_key eq_text
same_key_text (bool true) s = refl
same_key_text (bool false) s = refl
same_key_text _ s = refl

-- Two values that are one key are the same text, or no texts.
same_key_agrees : (v w : Value) (s : String) → same_key v w ≡ true → eq_text v s ≡ eq_text w s
unfolding same_key eq_text
same_key_agrees (str x) (str y) s h = ground (arith, eq_iff x s, eq_iff x y, eq_iff y s)
same_key_agrees (bool true) (str y) s h = cc
same_key_agrees (bool false) (str y) s h = cc
same_key_agrees v w s h = ground arith

one_key :
    (v w : Value) (s : String) → same_key v w ≡ false → eq_text v s ≡ true → eq_text w s ≡ false
unfolding same_key eq_text
one_key (str x) (str y) s h k = ground (arith, eq_iff x s, eq_iff x y, eq_iff y s)
one_key v w s h k = ground arith

abbrev one_if : Bool → ℕ
one_if true = 1
one_if false = 0

count_at-add_one :
    (s : String) (v : Value) (d : List (Value × ℕ))
    → count_at s (add_one v d) ≡ count_at s d + one_if (eq_text v s)
unfolding count_at add_one
count_at-add_one s v [] = ground (arith, same_key_text v s)
count_at-add_one s v ((j, n) ∷ d) =
    ground (arith, same_key_text j s, same_key_agrees j v s, one_key j v s, count_at-add_one s v d)

tally-count_at :
    (s : String) (a b : Summary) (n : ℤ) (v : Value)
    → tally a n v ≡ ok b
    → count_at s b.by_status ≡ count_at s a.by_status + one_if (eq_text v s)
unfolding tally require_hashable in_set
tally-count_at s a b n null h = ground (arith, count_at-add_one s null a.by_status)
tally-count_at s a b n v h = ground (arith, count_at-add_one s v a.by_status)

count_at-count_rows :
    (s : String) (rows : List Fields) (a b : Summary)
    → count_rows a rows ≡ ok b
    → count_at s b.by_status ≡ count_at s a.by_status + rows_with s rows
unfolding count_rows count_row rows_with
count_at-count_rows s [] a b h = ground arith
count_at-count_rows s (row ∷ rows) a b h =
    let (u, hu, rest) = >>=-eq-ok (count_row a row) (λ u. count_rows u rows) h in
    let (n, hn, hs) = >>=-eq-ok (call_attempts row) (λ n. tally a n (status_of row)) hu in
    ground (arith, count_at-count_rows s rows u b rest, tally-count_at s a u n (status_of row) hs)

-- For every text, the histogram's count at it is the number of rows with that status, where a row
-- with no status counts as PENDING.
pub histogram_counts :
    (responses : Value) (rows : List Fields) (t : Summary) (s : String)
    → require_list responses ≡ ok rows
    → compute_summary responses ≡ ok t
    → count_at s t.by_status ≡ rows_with s rows
unfolding compute_summary count_at
histogram_counts responses rows t s e h =
    let h' = rw e at h in omega (arith, count_at-count_rows s rows _ t h')
