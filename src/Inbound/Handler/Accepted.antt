-- ===== src/Inbound/Handler/Accepted.antt =====
-- The two steps of an incoming call, on the table of the contacts.
use emergency_contact.Prelude.{
  String, ◌≡◌, ◌≢◌, refl, sym, ap, ◌∙◌, inl, inr, Bool, true, false, Option, none, some, List, [],
  ◌∷◌, ℕ, str_eq, eq_refl,
}
use emergency_contact.Python.Results.{ok, err, client_error, ok_injective, >>=-eq-ok}
use emergency_contact.Python.Values.{Value, null, str, Fields, get, lookup, eq_text}
use emergency_contact.Python.Actions.{
  lift, ◌>>=◌, >>=-cases, Keeps, pure-Keeps, lift-Keeps, >>=-Keeps,
}
use emergency_contact.Python.Contracts.{Ensures, >>=-Ensures, lift-Ensures}
use emergency_contact.Aws.Tables.{not_exists}
use emergency_contact.Aws.Rows.{
  Rows, Writes, Elsewhere, Unchanged, Unchanged-IsPreorder, lookup-set_field,
}
use emergency_contact.Inbound.Moments.{Moment}
use emergency_contact.Inbound.Selection.{
  Flow, not_registered, no_cycle, cycle_terminated, active_cycle,
}
use emergency_contact.Inbound.Events.{Identify, flow_name}
use emergency_contact.Inbound.Items.{
  matched_id, Reply, identified, contact_item, with_given, has_flow, identify_reply,
  require_not_none, audit_extra,
}
use emergency_contact.Inbound.Handler.{
  Services, Library, lookup_employee_by_phone, query_statuses, query_recent_cycles, decide,
  classify, put_provisional_inbound_contact, identify, finalize_inbound_contact,
  conditional_check_failed,
}

-- The effect of the services on the table of the contacts. A refused condition is the answer false.
pub record Documented {W : Type 0} (t : Rows W String) (s : Services W) : Type 0 where
  pub puts :
      (k : String) (test : Option Fields → Bool) (row : Fields)
      → Writes t k test (λ old. row) (s.contacts.put_item k test row)
  pub updates :
      (k : String) (test : Option Fields → Bool) (change : Fields → Fields)
      → Writes t k test change (s.contacts.update_item k test change)
  pub update_raises :
      (k : String) (test : Option Fields → Bool) (change : Fields → Fields) (w : W)
      → (s.contacts.update_item k test change w).0
        ≢ err (client_error "ConditionalCheckFailedException")
  pub now_elsewhere : Elsewhere t s.utc_now
  pub employees_elsewhere : (phone : String) → Elsewhere t (s.query_employees phone)
  pub cycles_elsewhere : (status : String) → Elsewhere t (s.query_cycles status)
  pub log_elsewhere :
      (target phone : String) (extra : Fields) → Elsewhere t (s.write_audit_log target phone extra)

-- The row of a contact that was identified: its number and its flow, and what the reply links.
pub record IsRecorded (p : Identify) (flow : Flow) (row : Fields) : Type 0 where
  pub contact : lookup "contactId" row ≡ some (str p.contact_id)
  pub caller : lookup "callerNumber" row ≡ some (str p.caller_number)
  pub decided : lookup "flow" row ≡ some (str (flow_name flow))

lookup-with_given :
    (j k : String) (v : Value) (d : Fields)
    → str_eq k j ≡ false
    → lookup j (with_given k v d) ≡ lookup j d
unfolding with_given
lookup-with_given j k null d h = refl
lookup-with_given j k v d h = lookup-set_field j k v d h

contact_item-IsRecorded :
    (p : Identify) (at : String) (flow : Flow) (employee_id cycle_id : Value)
    → IsRecorded p flow (contact_item p at flow employee_id cycle_id)
unfolding contact_item
contact_item-IsRecorded p at flow employee_id cycle_id = record {
  contact =
      lookup-with_given "contactId" "cycleId" cycle_id _ refl
      ∙ lookup-with_given "contactId" "employeeId" employee_id _ refl;
  caller =
      lookup-with_given "callerNumber" "cycleId" cycle_id _ refl
      ∙ lookup-with_given "callerNumber" "employeeId" employee_id _ refl;
  decided =
      lookup-with_given "flow" "cycleId" cycle_id _ refl
      ∙ lookup-with_given "flow" "employeeId" employee_id _ refl;
}

IsRecorded-has_flow :
    (p : Identify) (flow : Flow) (row : Fields)
    → IsRecorded p flow row
    → has_flow (flow_name flow) (some row) ≡ true
unfolding has_flow get eq_text
IsRecorded-has_flow p flow row r = rw (r.contact, r.decided, eq_refl)

abbrev pub flow_of : Reply → Option Flow
flow_of (identified flow linked) = some flow
flow_of _ = none

identify_reply-flow :
    (flow : Flow) (employee_id cycle_id : Value) (r : Reply)
    → identify_reply flow employee_id cycle_id ≡ ok r
    → flow_of r ≡ some flow
unfolding identify_reply
identify_reply-flow active_cycle employee_id cycle_id r h =
    let employee = >>=-eq-ok (require_not_none employee_id) _ h in
    let cycle = >>=-eq-ok (require_not_none cycle_id) _ employee.2 in
    ap flow_of (sym (ok_injective cycle.2))
identify_reply-flow not_registered employee_id cycle_id r h = ap flow_of (sym (ok_injective h))
identify_reply-flow no_cycle employee_id cycle_id r h = ap flow_of (sym (ok_injective h))
identify_reply-flow cycle_terminated employee_id cycle_id r h = ap flow_of (sym (ok_injective h))

module _ {W : Type 0} (t : Rows W String) (s : Services W) (d : Documented t s) (lib : Library)
    (window : ℕ) (p : Identify) where
  -- The contact has no row yet.
  abbrev pub IsNew : W → Type 0
  IsNew w = t.row_at w p.contact_id ≡ none

  -- The contact has the row of the flow that the reply has.
  abbrev pub Recorded : Reply → W → Type 0
  Recorded r w =
      (flow : Flow) × (flow_of r ≡ some flow)
      × ((row : Fields) × (t.row_at w p.contact_id ≡ some row) × IsRecorded p flow row)

  put-writes :
      (at : String) (flow : Flow) (employee_id cycle_id : Value) (w : W) (b : Bool)
      → (put_provisional_inbound_contact s lib window p at flow employee_id cycle_id w).0 ≡ ok b
      → IsNew w
      → t.row_at
          (put_provisional_inbound_contact s lib window p at flow employee_id cycle_id w).1
          p.contact_id
        ≡ some (contact_item p at flow employee_id cycle_id)
  unfolding put_provisional_inbound_contact not_exists
  put-writes at flow employee_id cycle_id w true h new = (d.puts p.contact_id _ _).written w h
  put-writes at flow employee_id cycle_id w false h new =
      let no = (d.puts p.contact_id (not_exists "contactId") _).refused w h in
      let never = rw new at (no.0) in cc

  -- The write, the audit record and the reply.
  record-Ensures :
      (at : String) (flow : Flow) (employee_id cycle_id : Value)
      → Ensures IsNew Recorded (
          put_provisional_inbound_contact s lib window p at flow employee_id cycle_id >>= λ put.
          s.write_audit_log p.contact_id p.caller_number (audit_extra flow employee_id cycle_id)
          >>= λ written. lift (identify_reply flow employee_id cycle_id))
  unfolding lift
  record-Ensures at flow employee_id cycle_id =
      let item = contact_item p at flow employee_id cycle_id in
      let There : W → Type 0 = λ w. t.row_at w p.contact_id ≡ some item in
      >>=-Ensures {Mid = There} _ _ (λ w b h new. put-writes at flow employee_id cycle_id w b h new)
        (λ put.
          >>=-Ensures {Mid = There} _ _
            (λ w a h there. d.log_elsewhere _ _ _ w p.contact_id ∙ there)
            (λ written. record {
              holds = λ w r there h. (
                flow,
                identify_reply-flow flow employee_id cycle_id r h,
                (item, there, contact_item-IsRecorded p at flow employee_id cycle_id),
              );
            }))

  query_statuses-Unchanged :
      (statuses : List String) → Keeps (Unchanged t) (query_statuses s lib window statuses)
  unfolding query_statuses
  query_statuses-Unchanged [] = pure-Keeps (Unchanged-IsPreorder t) _
  query_statuses-Unchanged (status ∷ statuses) =
      >>=-Keeps (Unchanged-IsPreorder t) _ _ (record { run = d.cycles_elsewhere status })
        (λ found.
          >>=-Keeps (Unchanged-IsPreorder t) _ _ (query_statuses-Unchanged statuses)
            (λ rest. pure-Keeps (Unchanged-IsPreorder t) _))

  classify-Unchanged :
      (employee : Option Fields) (now : Moment)
      → Keeps (Unchanged t) (classify s lib window employee now)
  unfolding classify query_recent_cycles
  classify-Unchanged none now = lift-Keeps (Unchanged-IsPreorder t) _
  classify-Unchanged (some employee) now =
      >>=-Keeps (Unchanged-IsPreorder t) _ _ (query_statuses-Unchanged _)
        (λ cycles. lift-Keeps (Unchanged-IsPreorder t) (decide s lib window true cycles now))

  lookup-Unchanged :
      (phone : String) → Keeps (Unchanged t) (lookup_employee_by_phone s lib window phone)
  unfolding lookup_employee_by_phone
  lookup-Unchanged phone =
      >>=-Keeps (Unchanged-IsPreorder t) _ _ (record { run = d.employees_elsewhere phone })
        (λ items. pure-Keeps (Unchanged-IsPreorder t) _)

  identify-Ensures : Ensures IsNew Recorded (identify s lib window p)
  unfolding identify
  identify-Ensures =
      >>=-Ensures {Mid = IsNew} _ _ (λ w now h new. d.now_elsewhere w _ ∙ new)
        (λ now.
          >>=-Ensures {Mid = IsNew} _ _ (λ w e h new. (lookup-Unchanged _).run w _ ∙ new)
            (λ employee. lift-Ensures (matched_id employee) _ (λ employee_id e.
              >>=-Ensures {Mid = IsNew} _ _
                (λ w c h new. (classify-Unchanged employee now).run w _ ∙ new)
                (λ decision.
                  record-Ensures (lib.format_iso now) decision.0 employee_id decision.1))))

  accepts :
      (flow : Flow) (row : Fields) (change : Fields → Fields) (w : W) (b : Bool)
      → t.row_at w p.contact_id ≡ some row
      → IsRecorded p flow row
      → (s.contacts.update_item p.contact_id (has_flow (flow_name flow)) change w).0 ≡ ok b
      → conditional_check_failed b ≢ err (client_error "ConditionalCheckFailedException")
  unfolding conditional_check_failed
  accepts flow row change w true there r h q = cc
  accepts flow row change w false there r h q =
      let no = (d.updates p.contact_id (has_flow (flow_name flow)) change).refused w h in
      let yes = ap (has_flow (flow_name flow)) there ∙ IsRecorded-has_flow p flow row r in cc

  -- An update whose condition the row meets is not refused.
  update-accepted :
      (flow : Flow) (row : Fields) (change : Fields → Fields) (w : W)
      → t.row_at w p.contact_id ≡ some row
      → IsRecorded p flow row
      → (finalize_inbound_contact s lib window p.contact_id (flow_name flow) change w).0
        ≢ err (client_error "ConditionalCheckFailedException")
  unfolding finalize_inbound_contact lift
  update-accepted flow row change w there r q =
      elim (>>=-cases (s.contacts.update_item p.contact_id (has_flow (flow_name flow)) change)
        (λ answered. lift (conditional_check_failed answered)) w) [
          | inl (b, h, e) ↦ accepts flow row change w b there r h (sym (ap (λ o. o.0) e) ∙ q)
          | inr (x, h, e) ↦
              let g = sym (ap (λ o. o.0) e) ∙ q in
              let same : x ≡ client_error "ConditionalCheckFailedException" = cc in
              d.update_raises _ _ _ w (h ∙ ap err same)
        ]

  -- The first step of the call of a contact without a row, where it returns, stores the number of the
  -- caller and the flow of its reply; and the second step for that flow, in any state that has the
  -- row of the contact as the first left it, is not refused by the condition of its update. Assumed
  -- are the documented effects of the calls on the table of the contacts.
  pub identify-Accepted :
      (change : Fields → Fields) (w v : W) (r : Reply)
      → IsNew w
      → (identify s lib window p w).0 ≡ ok r
      → t.row_at v p.contact_id ≡ t.row_at (identify s lib window p w).1 p.contact_id
      → (flow : Flow) × (flow_of r ≡ some flow)
        × ((row : Fields) × (t.row_at v p.contact_id ≡ some row) × IsRecorded p flow row)
        × ((finalize_inbound_contact s lib window p.contact_id (flow_name flow) change v).0
            ≢ err (client_error "ConditionalCheckFailedException"))
  identify-Accepted change w v r new h same =
      let (flow, e, (row, there, recorded)) = identify-Ensures.holds w r new h in
      (
        flow,
        e,
        (row, same ∙ there, recorded),
        update-accepted flow row change v (same ∙ there) recorded,
      )
