-- ===== src/Inbound/Handler/Responses.antt =====
-- What an incoming call leaves alone of a response.
use emergency_contact.Prelude.{
  String, ◌≡◌, refl, ◌∙◌, Bool, true, false, Option, some, List, [], ◌∷◌, ℕ, str_eq,
}
use emergency_contact.Python.Results.{Result}
use emergency_contact.Python.Values.{Value, Fields, lookup}
use emergency_contact.Python.Actions.{
  Action, pure, lift, ◌>>=◌, Keeps, >>=-Keeps, pure-Keeps, lift-Keeps, if-Keeps,
}
use emergency_contact.Aws.Tables.{not_exists, always}
use emergency_contact.Aws.Rows.{Rows, Writes, Elsewhere, lookup-set_field}
use emergency_contact.Aws.Preserved.{
  Preserved, Preserved-IsPreorder, Elsewhere-Preserved, Writes-Preserved,
}
use emergency_contact.Inbound.Moments.{Moment}
use emergency_contact.Inbound.Events.{
  Identify, Finalize, active, other, normalize_connect_event, parse_identify_event,
  parse_finalize_event,
}
use emergency_contact.Inbound.Items.{add_inbound}
use emergency_contact.Inbound.Handler.{
  Services, Library, lookup_employee_by_phone, query_statuses, query_recent_cycles, decide,
  classify, put_provisional_inbound_contact, identify, append_inbound_to_response,
  finalize_inbound_contact, finalize, handle_identify, handle_finalize, dispatch, lambda_handler,
  require_event,
}

-- The effect of the services on the table of the responses.
pub record Documented {W : Type 0} (t : Rows W (String × String)) (s : Services W) : Type 0 where
  pub puts :
      (k : String × String) (test : Option Fields → Bool) (row : Fields)
      → Writes t k test (λ old. row) (s.responses.put_item k test row)
  pub updates :
      (k : String × String) (test : Option Fields → Bool) (change : Fields → Fields)
      → Writes t k test change (s.responses.update_item k test change)
  pub now_elsewhere : Elsewhere t s.utc_now
  pub employees_elsewhere : (phone : String) → Elsewhere t (s.query_employees phone)
  pub cycles_elsewhere : (status : String) → Elsewhere t (s.query_cycles status)
  pub put_elsewhere :
      (k : String) (test : Option Fields → Bool) (row : Fields)
      → Elsewhere t (s.contacts.put_item k test row)
  pub update_elsewhere :
      (k : String) (test : Option Fields → Bool) (change : Fields → Fields)
      → Elsewhere t (s.contacts.update_item k test change)
  pub log_elsewhere :
      (target phone : String) (extra : Fields) → Elsewhere t (s.write_audit_log target phone extra)

-- The response has its key and an attribute of a value.
abbrev pub Has : Value → String → Value → Fields → Type 0
Has id name v row = (lookup "cycleId" row ≡ some id) × (lookup name row ≡ some v)

refuses_new :
    (id v : Value) (name : String) (row new : Fields)
    → not_exists "cycleId" (some row) ≡ true
    → Has id name v row
    → Has id name v new
unfolding not_exists
refuses_new id v name row new passed h = let never = rw h.0 at passed in cc

add_inbound-Has :
    (id v : Value) (name : String) (row : Fields)
    → str_eq "callResultCodes" name ≡ false
    → Has id name v row
    → Has id name v (add_inbound row)
unfolding add_inbound
add_inbound-Has id v name row other_name h = (
  lookup-set_field "cycleId" "callResultCodes" _ row refl ∙ h.0,
  lookup-set_field name "callResultCodes" _ row other_name ∙ h.1,
)

module _ {W : Type 0} (t : Rows W (String × String)) (s : Services W) (d : Documented t s)
    (lib : Library) (window : ℕ) (id v : Value) (name : String)
    (other_name : str_eq "callResultCodes" name ≡ false) where
  abbrev pub Kept : W → W → Type 0
  Kept = Preserved t (Has id name v)

  keep :
      {A B : Type 0} (m : Action W A) (f : A → Action W B)
      → Keeps Kept m
      → ((a : A) → Keeps Kept (f a))
      → Keeps Kept (m >>= f)
  keep = >>=-Keeps (Preserved-IsPreorder t (Has id name v))

  keep_pure : {A : Type 0} (a : A) → Keeps Kept (pure a)
  keep_pure = pure-Keeps (Preserved-IsPreorder t (Has id name v))

  keep_lift : {A : Type 0} (r : Result A) → Keeps Kept (lift r)
  keep_lift = lift-Keeps (Preserved-IsPreorder t (Has id name v))

  leave : {A : Type 0} (m : Action W A) → Elsewhere t m → Keeps Kept m
  leave = Elsewhere-Preserved t (Has id name v)

  query_statuses-Keeps :
      (statuses : List String) → Keeps Kept (query_statuses s lib window statuses)
  unfolding query_statuses
  query_statuses-Keeps [] = keep_pure _
  query_statuses-Keeps (status ∷ statuses) =
      keep _ _ (leave _ (d.cycles_elsewhere status))
        (λ found. keep _ _ (query_statuses-Keeps statuses) (λ rest. keep_pure _))

  classify-Keeps :
      (employee : Option Fields) (now : Moment) → Keeps Kept (classify s lib window employee now)
  unfolding classify query_recent_cycles
  classify-Keeps Option.none now = keep_lift _
  classify-Keeps (some employee) now =
      keep _ _ (query_statuses-Keeps _) (λ cycles. keep_lift (decide s lib window true cycles now))

  identify-Keeps : (p : Identify) → Keeps Kept (identify s lib window p)
  unfolding identify lookup_employee_by_phone put_provisional_inbound_contact
  identify-Keeps p = keep _ _ (leave _ d.now_elsewhere) (λ now.
      keep _ _ (keep _ _ (leave _ (d.employees_elsewhere _)) (λ items. keep_pure _)) (λ employee.
        keep _ _ (keep_lift _) (λ employee_id. keep _ _ (classify-Keeps employee now) (λ decision.
          keep _ _ (leave _ (d.put_elsewhere _ _ _))
            (λ put. keep _ _ (leave _ (d.log_elsewhere _ _ _)) (λ written. keep_lift _))))))

  append-Keeps :
      (cycle_id employee_id : String)
      → Keeps Kept (append_inbound_to_response s lib window cycle_id employee_id)
  unfolding append_inbound_to_response
  append-Keeps cycle_id employee_id =
      keep _ _
        (Writes-Preserved t (Has id name v) _ (not_exists "cycleId") _ _ (d.puts _ _ _)
          (λ row. refuses_new id v name row _))
        (λ put.
          Writes-Preserved t (Has id name v) _ always _ _ (d.updates _ _ _)
            (λ row passed. add_inbound-Has id v name row other_name))

  contact-Keeps :
      (contact_id flow : String) (change : Fields → Fields)
      → Keeps Kept (finalize_inbound_contact s lib window contact_id flow change)
  unfolding finalize_inbound_contact
  contact-Keeps contact_id flow change =
      keep _ _ (leave _ (d.update_elsewhere _ _ _)) (λ answered. keep_lift _)

  finalize-Keeps : (p : Finalize) (now : Moment) → Keeps Kept (finalize s lib window p now)
  unfolding finalize
  finalize-Keeps (active contact_id employee_id cycle_id) now =
      keep _ _ (append-Keeps cycle_id employee_id)
        (λ appended. keep _ _ (contact-Keeps _ _ _) (λ written. keep_pure _))
  finalize-Keeps (other contact_id flow) now =
      keep _ _ (contact-Keeps _ _ _) (λ written. keep_pure _)

  dispatch-Keeps : (flat : Fields) → Keeps Kept (dispatch s lib window flat)
  unfolding dispatch handle_identify handle_finalize
  dispatch-Keeps flat =
      if-Keeps _ _ _ (keep _ _ (keep_lift (parse_identify_event flat)) identify-Keeps) (
        if-Keeps _ _ _
          (keep _ _ (keep_lift (parse_finalize_event flat))
            (λ p. keep _ _ (leave _ d.now_elsewhere) (finalize-Keeps p)))
          (keep_lift _))

  -- An incoming call changes no attribute of a response but the list of its result codes: a response
  -- that has its key and another attribute, the number of its calls, its voice status or its result
  -- code, has the same afterwards, for every event and also where the run raises.
  pub lambda_handler-Kept :
      (event : Value) (w : W)
      → Preserved t (Has id name v) w (lambda_handler s lib window event w).1
  unfolding lambda_handler
  lambda_handler-Kept event w =
      (keep _ _ (keep_lift (require_event event))
          (λ outer. keep _ _ (keep_lift (normalize_connect_event outer)) dispatch-Keeps)).run
        w
