-- ===== src/Retry/Decision.antt =====
-- When another call is made, and what status an employee ends with.
use emergency_contact.Prelude.{
  ℕ, ◌≤◌, ◌<◌, String, ◌≡◌, refl, ◌↔◌, ◌⊎◌, inl, inr, Bool, true, false, arith, Bool-cases, ltb, ap,
}
use emergency_contact.Prelude.Int.{pos}
use emergency_contact.Python.Results.{ok}
use emergency_contact.Python.Values.{Value, int, str, mem}
use emergency_contact.Python.Texts.{each_mem}
use emergency_contact.Retry.{
  valid_voice_status_values, terminal_voice_statuses, should_retry, derive_final_status,
}

-- What the requirements say: the answer is still open, and fewer calls were made than are allowed.
pub record IsDue (voice_status attempts retry_count : Value) : Type 0 where
  pub made : ℕ
  pub allowed : ℕ
  pub attempts_made : attempts ≡ int (pos made)
  pub retries_allowed : retry_count ≡ int (pos allowed)
  pub some_left : made < allowed
  pub still_open : (voice_status ≡ str "PENDING") ⊎ (voice_status ≡ str "OTHER")

-- Outside the vocabulary both functions raise.
valid_of_retry :
    (s : String) (code a r : Value) {b : Bool}
    → should_retry (str s) code a r ≡ ok b
    → mem s valid_voice_status_values ≡ true
unfolding should_retry
valid_of_retry s code a r h = elim (Bool-cases (mem s valid_voice_status_values)) [
  | inl e ↦ e
  | inr e ↦ cc (rw e at h)
]

valid_of_final :
    (s : String) {v : Value}
    → derive_final_status (str s) ≡ ok v
    → mem s valid_voice_status_values ≡ true
unfolding derive_final_status
valid_of_final s h = elim (Bool-cases (mem s valid_voice_status_values)) [
  | inl e ↦ e
  | inr e ↦ cc (rw e at h)
]

abbrev IsOpen : String → Type 0
IsOpen s = (s ≡ "PENDING") ⊎ (s ≡ "OTHER")

IsOpen-of_retry :
    (code : Value) (n m : ℕ) (s : String)
    → mem s valid_voice_status_values ≡ true
    → should_retry (str s) code (int (pos n)) (int (pos m)) ≡ ok true
    → IsOpen s
unfolding should_retry mem
IsOpen-of_retry code n m =
    each_mem (λ s. should_retry (str s) code (int (pos n)) (int (pos m)) ≡ ok true → IsOpen s)
      valid_voice_status_values
      (
        (λ _. inl refl),
        (
          (λ h. absurd (ground arith)),
          (
            (λ h. absurd (ground arith)),
            ((λ h. absurd (ground arith)), ((λ _. inr refl), ((λ h. absurd (ground arith)), tt))),
          ),
        ),
      )

retry_only_if_IsDue :
    (voice_status code attempts retry_count : Value)
    → should_retry voice_status code attempts retry_count ≡ ok true
    → IsDue voice_status attempts retry_count
unfolding should_retry
retry_only_if_IsDue (str s) code (int (pos n)) (int (pos m)) h = record {
  made = n;
  allowed = m;
  attempts_made = refl;
  retries_allowed = refl;
  some_left = ground arith;
  still_open =
      elim (IsOpen-of_retry code n m s (valid_of_retry s code (int (pos n)) (int (pos m)) h) h) [
        | inl e ↦ inl (ap str e)
        | inr e ↦ inr (ap str e)
      ];
}
retry_only_if_IsDue (str s) code _ _ h = absurd (ground arith)
retry_only_if_IsDue vs code a r h = absurd (ground arith)

retry_if_due :
    (voice_status code attempts retry_count : Value)
    → IsDue voice_status attempts retry_count
    → should_retry voice_status code attempts retry_count ≡ ok true
unfolding should_retry mem
retry_if_due vs code a r due = elim due.still_open [
  | inl e ↦ rw (e, due.attempts_made, due.retries_allowed) (ground (arith, due.some_left))
  | inr e ↦ rw (e, due.attempts_made, due.retries_allowed) (ground (arith, due.some_left))
]

-- The evaluator answers that another call is due exactly when the voice status is PENDING or OTHER
-- and the attempts and the retry count are non-negative integers with fewer attempts than retries.
pub should_retry_iff :
    (voice_status code attempts retry_count : Value)
    → (should_retry voice_status code attempts retry_count ≡ ok true)
      ↔ IsDue voice_status attempts retry_count
should_retry_iff vs code a r = (retry_only_if_IsDue vs code a r, retry_if_due vs code a r)

abbrev Returns : Value → ℕ → ℕ → String → Type 0
Returns code n m s = (b : Bool) × (should_retry (str s) code (int (pos n)) (int (pos m)) ≡ ok b)

-- On a status of the vocabulary and two non-negative integers the evaluator returns an answer.
pub should_retry_total :
    (s : String) (code : Value) (n m : ℕ)
    → mem s valid_voice_status_values ≡ true
    → (b : Bool) × (should_retry (str s) code (int (pos n)) (int (pos m)) ≡ ok b)
unfolding should_retry mem
should_retry_total s code n m =
    each_mem (Returns code n m) valid_voice_status_values
      (
        (ltb n m, refl),
        ((false, refl), ((false, refl), ((false, refl), ((ltb n m, refl), ((false, refl), tt))))),
      )
      s

abbrev EndsAs : Value → String → Type 0
EndsAs v s =
    derive_final_status (str s) ≡ ok v
    → (v ≡ str s) × (mem s terminal_voice_statuses ≡ true) ⊎ (v ≡ str "UNREACHABLE") × IsOpen s

ends_as : (v : Value) (s : String) → mem s valid_voice_status_values ≡ true → EndsAs v s
unfolding derive_final_status mem
ends_as v = each_mem (EndsAs v) valid_voice_status_values (
  (λ h. inr (ground arith, inl refl)),
  (
    (λ h. inl (ground arith, refl)),
    (
      (λ h. inl (ground arith, refl)),
      (
        (λ h. inl (ground arith, refl)),
        ((λ h. inr (ground arith, inr refl)), ((λ h. inl (ground arith, refl)), tt)),
      ),
    ),
  ),
)

-- The status that ends an employee's calls is terminal: a status that is terminal already is kept,
-- and only PENDING and OTHER become UNREACHABLE.
pub derive_final_status_cases :
    (s : String) (final : Value)
    → derive_final_status (str s) ≡ ok final
    → (final ≡ str s) × (mem s terminal_voice_statuses ≡ true)
      ⊎ (final ≡ str "UNREACHABLE") × ((s ≡ "PENDING") ⊎ (s ≡ "OTHER"))
derive_final_status_cases s final h = ends_as final s (valid_of_final s h) h

-- An employee whose calls end with UNREACHABLE was unreachable already, or has used up the retries.
pub unreachable_only_if_exhausted :
    (s : String) (code : Value) (n m : ℕ)
    → should_retry (str s) code (int (pos n)) (int (pos m)) ≡ ok false
    → derive_final_status (str s) ≡ ok (str "UNREACHABLE")
    → (s ≡ "UNREACHABLE") ⊎ (m ≤ n)
unfolding should_retry mem
unreachable_only_if_exhausted s code n m h k =
    elim (derive_final_status_cases s (str "UNREACHABLE") k) [
      | inl (e, _) ↦ inl (ground arith)
      | inr (_, inl e) ↦ inr (let h' = rw e at h in ground arith)
      | inr (_, inr e) ↦ inr (let h' = rw e at h in ground arith)
    ]
