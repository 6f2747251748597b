-- ===== src/Examples/Finalizer.antt =====
-- The finalizer over services that keep their tables in memory.
use emergency_contact.Prelude.{
  String, refl, inl, inr, Bool, true, false, Option, none, some, [], ◌∷◌, str_eq, if◌then◌else◌,
  Bool-cases,
}
use emergency_contact.Python.Results.{ok}
use emergency_contact.Python.Values.{Value, str, dict, Fields, end, field}
use emergency_contact.Python.Actions.{Action}
use emergency_contact.Finalizer.Services.{Services, Tables, Updated, Documented}
use emergency_contact.Finalizer.Handler.{lambda_handler}
use emergency_contact.Finalizer.Handler.Guards.{Guarded, lambda_handler-Guarded}

abbrev Memory : Type 0
Memory = (String → Option Fields) × (String → String → Option Fields)

-- The answer of a conditional update, and the row after it.
abbrev answer : (Fields → Bool) → Option Fields → Bool
answer test none = false
answer test (some row) = test row

abbrev written : (Fields → Bool) → (Fields → Fields) → Option Fields → Option Fields
written test change none = none
written test change (some row) = if test row then some (change row) else some row

written-Updated :
    (test : Fields → Bool) (change : Fields → Fields) (o : Option Fields)
    → Updated test change o (written test change o)
written-Updated test change none = inl refl
written-Updated test change (some row) = elim (Bool-cases (test row)) [
  | inl e ↦ inr (row, refl, e, rw e)
  | inr e ↦ inl (rw e)
]

abbrev nothing : Action Memory (Unit {0})
nothing w = (ok tt, w)

abbrev yes_always : Action Memory Bool
yes_always w = (ok true, w)

abbrev in_memory : Services Memory
in_memory = record {
  utc_now_iso = λ w. (ok "2026-01-01T01:00:00Z", w);
  get_cycle = λ c w. (ok (w.0 c), w);
  query_pages = λ c w. (ok (elim (w.1 c "E1") [ none ↦ [] | some row ↦ (row ∷ []) ∷ [] ]), w);
  update_cycle = λ k test change w. (
    ok (answer test (w.0 k)),
    (λ c. if str_eq c k then written test change (w.0 c) else w.0 c, w.1),
  );
  update_response = λ k i test change w. (
    ok (answer test (w.1 k i)),
    (
      w.0,
      λ c e.
          if str_eq c k
          then if str_eq e i then written test change (w.1 c e) else w.1 c e
          else w.1 c e,
    ),
  );
  stop_execution = λ a. yes_always;
  remove_targets = λ n. yes_always;
  delete_rule = λ n. yes_always;
  publish = λ u n. nothing;
  put_metric = λ n c. nothing;
}

abbrev memory_tables : Tables Memory
memory_tables = record { cycle_at = λ w. w.0; response_at = λ w. w.1 }

if-Updated :
    (b : Bool) (test : Fields → Bool) (change : Fields → Fields) (o : Option Fields)
    → Updated test change o (if b then written test change o else o)
if-Updated true test change o = written-Updated test change o
if-Updated false test change o = inl refl

if-if-Updated :
    (a b : Bool) (test : Fields → Bool) (change : Fields → Fields) (o : Option Fields)
    → Updated test change o (if a then if b then written test change o else o else o)
if-if-Updated true b test change o = if-Updated b test change o
if-if-Updated false b test change o = inl refl

in_memory-Documented : Documented memory_tables in_memory
in_memory-Documented = record {
  now_reads = λ w. (λ c. refl, λ c e. refl);
  get_reads = λ k w. (λ c. refl, λ c e. refl);
  query_reads = λ k w. (λ c. refl, λ c e. refl);
  stop_elsewhere = λ a w. (λ c. refl, λ c e. refl);
  remove_elsewhere = λ n w. (λ c. refl, λ c e. refl);
  delete_elsewhere = λ n w. (λ c. refl, λ c e. refl);
  publish_elsewhere = λ u n w. (λ c. refl, λ c e. refl);
  metric_elsewhere = λ n k w. (λ c. refl, λ c e. refl);
  cycle_updated = λ k test change w c. if-Updated (str_eq c k) test change (w.0 c);
  cycle_only = λ k test change w c e. refl;
  response_updated =
      λ k i test change w c e. if-if-Updated (str_eq c k) (str_eq e i) test change (w.1 c e);
  response_only = λ k i test change w c. refl;
}

abbrev one_cycle : Memory
one_cycle = (
  λ c. some (field "cycleId" (str c) (field "status" (str "RUNNING") end)),
  λ c e. some (field "employeeId" (str e) (field "voiceStatus" (str "SAFE") end)),
)

abbrev timer_event : Value
timer_event = dict (field "trigger" (str "TIMER_60MIN") (field "cycleId" (str "C1") end))

lambda_handler-Guarded_example :
    Guarded memory_tables one_cycle (lambda_handler in_memory timer_event one_cycle).1
lambda_handler-Guarded_example =
    lambda_handler-Guarded memory_tables in_memory in_memory-Documented timer_event one_cycle
