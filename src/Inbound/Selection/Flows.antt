-- ===== src/Inbound/Selection/Flows.antt =====
-- Which flow is chosen, against a specification over all the rows.
use emergency_contact.Prelude.{
  ℕ, ◌≤◌, String, ◌≡◌, refl, ◌⊎◌, inl, inr, Bool, true, false, Option, none, some, List, [], ◌∷◌,
  arith, Bool-cases, if◌then◌else◌, subst,
}
use emergency_contact.Prelude.Int.{pos}
use emergency_contact.Python.Results.{Result, ok, ok_injective, >>=-eq-ok}
use emergency_contact.Python.Values.{Value, null, bool, int, list, Items, Fields, get}
use emergency_contact.Inbound.Moments.{Moment}
use emergency_contact.Inbound.Selection.{
  Flow, not_registered, no_cycle, cycle_terminated, active_cycle, has_status, is_terminated,
  select_latest, running_of, is_within_window, validate_cycles, recent, terminated_step,
  completed_step, running_step, decide_inbound_flow, is_aware, max_eligibility_window_days,
}
use emergency_contact.Inbound.Selection.Latest.{
  IsLatestOf, NoneOf, Filters, Filters-nil, Filters-keep, Filters-skip, Selects,
  select_latest-Selects,
}

abbrev pub IsRunning : Fields → Type 0
IsRunning c = has_status "RUNNING" c ≡ true

running_of-Filters : (rows : List Fields) → Filters IsRunning rows (running_of rows)
unfolding running_of
running_of-Filters [] = Filters-nil IsRunning
running_of-Filters (c ∷ cs) = elim (Bool-cases (has_status "RUNNING" c)) [
  | inl e ↦ rw e (Filters-keep IsRunning c cs _ e (running_of-Filters cs))
  | inr e ↦ rw e (Filters-skip IsRunning c cs _ (λ p. cc) (running_of-Filters cs))
]

module _ (fromisoformat : String → Option Moment) (now : Moment) (window : ℕ) where
  -- The row passes the test, and its window is open.
  pub record IsRecent (test : Fields → Bool) (c : Fields) : Type 0 where
    pub tested : test c ≡ true
    pub in_window : is_within_window fromisoformat (get "completedAt" c) now window ≡ ok true

  abbrev Keeps : (Fields → Bool) → Fields → Result Bool
  Keeps test c =
      if test c then is_within_window fromisoformat (get "completedAt" c) now window else ok false

  IsRecent-of_kept : (test : Fields → Bool) (c : Fields) → Keeps test c ≡ ok true → IsRecent test c
  IsRecent-of_kept test c h = record { tested = ground arith; in_window = ground arith }

  not-IsRecent : (test : Fields → Bool) (c : Fields) → Keeps test c ≡ ok false → ¬ IsRecent test c
  not-IsRecent test c h r = ground (arith, r.tested, r.in_window)

  recent-Filters :
      (test : Fields → Bool) (rows found : List Fields)
      → recent fromisoformat test now window rows ≡ ok found
      → Filters (IsRecent test) rows found
  unfolding recent
  recent-Filters test [] found h =
      subst (Filters (IsRecent test) []) (ground arith) (Filters-nil (IsRecent test))
  recent-Filters test (c ∷ cs) found h =
      let (keep, hk, h2) = >>=-eq-ok (Keeps test c) _ h in
      let (rest, hr, h3) = >>=-eq-ok (recent fromisoformat test now window cs) _ h2 in
      add_row keep hk (recent-Filters test cs rest hr) h3
    where
      add_row :
          (keep : Bool) {rest : List Fields}
          → Keeps test c ≡ ok keep
          → Filters (IsRecent test) cs rest
          → ◌≡◌ {A = Result (List Fields)} (ok (if keep then c ∷ rest else rest)) (ok found)
          → Filters (IsRecent test) (c ∷ cs) found
      add_row true {rest} hk f e =
          subst (Filters (IsRecent test) (c ∷ cs)) (ground arith)
            (Filters-keep (IsRecent test) c cs rest (IsRecent-of_kept test c hk) f)
      add_row false {rest} hk f e =
          subst (Filters (IsRecent test) (c ∷ cs)) (ground arith)
            (Filters-skip (IsRecent test) c cs rest (not-IsRecent test c hk) f)

  abbrev pub IsRecentCompleted : Fields → Type 0
  IsRecentCompleted = IsRecent (has_status "COMPLETED")

  abbrev pub IsRecentTerminated : Fields → Type 0
  IsRecentTerminated = IsRecent is_terminated

  -- The chosen flow and cycle are those that the requirements ask for.
  abbrev pub Justified : List Fields → Flow × Value → Type 0
  Justified rows (not_registered, id) = ⊥
  Justified rows (active_cycle, id) =
      (c : Fields) × (id ≡ get "cycleId" c)
      × (IsLatestOf IsRunning "startedAt" c rows
          ⊎ NoneOf IsRunning rows × IsLatestOf IsRecentCompleted "completedAt" c rows)
  Justified rows (cycle_terminated, id) =
      (c : Fields) × (id ≡ get "cycleId" c)
      × NoneOf IsRunning rows
      × NoneOf IsRecentCompleted rows
      × IsLatestOf IsRecentTerminated "completedAt" c rows
  Justified rows (no_cycle, id) =
      (id ≡ null)
      × NoneOf IsRunning rows
      × NoneOf IsRecentCompleted rows
      × NoneOf IsRecentTerminated rows

  terminated_choice :
      (rows : List Fields) (o : Option Fields) (r : Flow × Value)
      → NoneOf IsRunning rows
      → NoneOf IsRecentCompleted rows
      → Selects IsRecentTerminated "completedAt" rows o
      → ◌≡◌ {A = Flow × Value}
          (elim o [ none ↦ (no_cycle, null) | some c ↦ (cycle_terminated, get "cycleId" c) ])
          r
      → Justified rows r
  terminated_choice rows none r nr nc s e = subst (Justified rows) e (refl, nr, nc, s)
  terminated_choice rows (some c) r nr nc s e = subst (Justified rows) e (c, refl, nr, nc, s)

  terminated-Justified :
      (rows : List Fields) (r : Flow × Value)
      → NoneOf IsRunning rows
      → NoneOf IsRecentCompleted rows
      → terminated_step fromisoformat now window rows ≡ ok r
      → Justified rows r
  unfolding terminated_step
  terminated-Justified rows r nr nc h =
      let (found, hf, last) = >>=-eq-ok (recent fromisoformat is_terminated now window rows) _ h in
      terminated_choice rows (select_latest "completedAt" found) r nr nc
        (select_latest-Selects IsRecentTerminated "completedAt" rows found
          (recent-Filters is_terminated rows found hf))
        (ok_injective last)

  completed_choice :
      (rows : List Fields) (o : Option Fields) (r : Flow × Value)
      → NoneOf IsRunning rows
      → Selects IsRecentCompleted "completedAt" rows o
      → ◌≡◌ {A = Result (Flow × Value)}
          (elim o [
            | none ↦ terminated_step fromisoformat now window rows
            | some c ↦ ok (active_cycle, get "cycleId" c)
          ])
          (ok r)
      → Justified rows r
  completed_choice rows none r nr s e = terminated-Justified rows r nr s e
  completed_choice rows (some c) r nr s e =
      subst (Justified rows) (ok_injective e) (c, refl, inr (nr, s))

  completed-Justified :
      (rows : List Fields) (r : Flow × Value)
      → NoneOf IsRunning rows
      → completed_step fromisoformat now window rows ≡ ok r
      → Justified rows r
  unfolding completed_step
  completed-Justified rows r nr h =
      let (found, hf, last) =
        >>=-eq-ok (recent fromisoformat (has_status "COMPLETED") now window rows) _ h in
      completed_choice rows (select_latest "completedAt" found) r nr
        (select_latest-Selects IsRecentCompleted "completedAt" rows found
          (recent-Filters (has_status "COMPLETED") rows found hf))
        last

  running_choice :
      (rows : List Fields) (o : Option Fields) (r : Flow × Value)
      → Selects IsRunning "startedAt" rows o
      → ◌≡◌ {A = Result (Flow × Value)}
          (elim o [
            | none ↦ completed_step fromisoformat now window rows
            | some c ↦ ok (active_cycle, get "cycleId" c)
          ])
          (ok r)
      → Justified rows r
  running_choice rows none r s e = completed-Justified rows r s e
  running_choice rows (some c) r s e = subst (Justified rows) (ok_injective e) (c, refl, inl s)

  running-Justified :
      (rows : List Fields) (r : Flow × Value)
      → running_step fromisoformat now window rows ≡ ok r
      → Justified rows r
  unfolding running_step
  running-Justified rows r h =
      running_choice rows (select_latest "startedAt" (running_of rows)) r
        (select_latest-Selects IsRunning "startedAt" rows (running_of rows)
          (running_of-Filters rows))
        h

-- For a registered caller and cycles that the validation accepts, an answer is, over all the rows:
-- the latest RUNNING cycle; if there is none, the latest COMPLETED one within the window; if there
-- is none, the latest TIMEOUT or START_FAILED one within the window, as terminated; else no cycle.
-- "Latest" is by the text of the timestamp.
pub decide-Justified :
    (fromisoformat : String → Option Moment) (items : Items) (now : Moment) (window : ℕ)
    (rows : List Fields) (r : Flow × Value)
    → validate_cycles fromisoformat items ≡ ok rows
    → decide_inbound_flow fromisoformat (bool true) (list items) now (int (pos window)) ≡ ok r
    → Justified fromisoformat now window rows r
unfolding decide_inbound_flow
decide-Justified f items now window rows r v h =
    running-Justified f now window rows r (ground (arith, v))

-- A caller who is not registered gets that answer, whatever the cycles are, also malformed ones.
pub decide_unregistered :
    (fromisoformat : String → Option Moment) (items : Items) (now : Moment) (window : ℕ)
    → is_aware now ≡ true
    → 1 ≤ window
    → window ≤ max_eligibility_window_days
    → decide_inbound_flow fromisoformat (bool false) (list items) now (int (pos window))
      ≡ ok (not_registered, null)
unfolding decide_inbound_flow
decide_unregistered f items now window a lo hi = ground arith
