-- ===== src/CycleApi/Created.antt =====
-- What a request to start a cycle leaves in the table of the cycles.
use Prim.Native.String.{◌++◌}
use emergency_contact.Prelude.{
  String, ◌≡◌, refl, sym, ap, subst, ◌∙◌, Bool, true, false, not, Option, List, if◌then◌else◌,
}
use emergency_contact.Prelude.Int.{ℤ}
use emergency_contact.Python.Results.{Result, ok, err, Error, ok_injective}
use emergency_contact.Python.Values.{Value, str, Fields}
use emergency_contact.Python.Actions.{
  Action, pure, lift, attempt, continue, ◌>>=◌, IsPreorder, >>=-Keeps, pure-Keeps, lift-Keeps,
  >>=-returns, >>=-pure,
}
use emergency_contact.Aws.Tables.{set_field, always}
use emergency_contact.Aws.Rows.{
  Rows, Writes, Elsewhere, Unchanged, Unchanged-IsPreorder, lookup-set_field_same,
}
use emergency_contact.CycleApi.Request.{Library, Defaults, Order}
use emergency_contact.CycleApi.Handler.{
  Services, Reply, dictionary_empty, conflict, replayed, start_failed, created, cycle_item,
  sfn_input, get_dict_version, is_active_dictionary_empty, replay, reject_running, refuse,
  after_start, start, reject_empty, start_if_free, create_cycle, is_client_error,
}
use emergency_contact.CycleApi.Only.{Only, Only-same, Only-Only, write-Only, cycle_item-status}

-- The effect of the services on the table of the cycles.
pub record Documented {W : Type 0} (t : Rows W String) (s : Services W) : Type 0 where
  pub updates :
      (k : String) (test : Option Fields → Bool) (change : Fields → Fields)
      → Writes t k test change (s.cycles.update_item k test change)
  pub puts :
      (k : String) (test : Option Fields → Bool) (row : Fields)
      → Writes t k test (λ old. row) (s.cycles.put_item k test row)
  pub now_elsewhere : Elsewhere t s.now_iso
  pub uuid_elsewhere : Elsewhere t s.uuid4
  pub category_elsewhere : (c : String) → Elsewhere t (s.query_category c)
  pub running_elsewhere : Elsewhere t s.query_running
  pub meta_elsewhere : Elsewhere t s.get_meta
  pub start_elsewhere : (n : String) (v : Value) → Elsewhere t (s.start_execution n v)
  pub audit_elsewhere : (e u : String) → Elsewhere t (s.write_audit_log e u)

module _ {W : Type 0} (t : Rows W String) (s : Services W) (d : Documented t s) (lib : Library)
    (defaults : Defaults) where
  -- A created cycle is RUNNING, a failed one START_FAILED, and any other answer changes nothing.
  pub Outcome : W → Reply → W → Type 0
  Outcome w (created cycle_id order started_at version) v = Only t cycle_id "RUNNING" w v
  Outcome w (start_failed cycle_id) v = Only t cycle_id "START_FAILED" w v
  Outcome w _ v = Unchanged t w v

  Ends : Action W Reply → Type 0
  Ends m = (w : W) (r : Reply) → (m w).0 ≡ ok r → Outcome w r (m w).1

  -- An outcome from a state with the same rows.
  Outcome-of_same : (u w : W) (r : Reply) (v : W) → Unchanged t u w → Outcome w r v → Outcome u r v
  unfolding Outcome
  Outcome-of_same u w (created c o st n) v same k = record {
    status_of = k.status_of;
    others = λ j ne. k.others j ne ∙ same j;
  }
  Outcome-of_same u w (start_failed c) v same k = record {
    status_of = k.status_of;
    others = λ j ne. k.others j ne ∙ same j;
  }
  Outcome-of_same u w _ v same k = λ j. k j ∙ same j

  >>=-Ends :
      {A : Type 0} (m : Action W A) (f : A → Action W Reply)
      → Elsewhere t m
      → ((a : A) → Ends (f a))
      → Ends (m >>= f)
  unfolding Ends
  >>=-Ends m f e g w r h =
      let ran = >>=-returns m f w r h in
      subst (λ o. Outcome w r o.1) (sym ran.2)
        (Outcome-of_same w (m w).1 r _ (e w) (g ran.0 (m w).1 r (sym (ap (λ o. o.0) ran.2) ∙ h)))

  if-Ends : (b : Bool) (m n : Action W Reply) → Ends m → Ends n → Ends (if b then m else n)
  if-Ends true m n g k = g
  if-Ends false m n g k = k

  lift-Elsewhere : {A : Type 0} (r : Result A) → Elsewhere t (lift r)
  unfolding lift
  lift-Elsewhere r w j = refl

  pure-Elsewhere : {A : Type 0} (a : A) → Elsewhere t (pure a)
  unfolding pure
  pure-Elsewhere a w j = refl

  lift_err-Ends : (e : Error) → Ends (lift (err e))
  unfolding Ends lift
  lift_err-Ends e w r h = cc

  pure-Ends : (x : Reply) → ((w : W) → Outcome w x w) → Ends (pure x)
  unfolding Ends pure
  pure-Ends x k w r h = subst (λ y. Outcome w y w) (ok_injective h) (k w)

  reject_running-Ends : (row : Fields) → Ends (reject_running s lib defaults row)
  unfolding reject_running Outcome
  reject_running-Ends row =
      >>=-Ends _ _ (d.audit_elsewhere _ _) (λ written. pure-Ends conflict (λ w j. refl))

  replay-Ends : (row : Fields) → Ends (replay s lib defaults row)
  unfolding replay Outcome
  replay-Ends row =
      >>=-Ends _ _ (lift-Elsewhere _) (λ version. pure-Ends (replayed row version) (λ w j. refl))

  refuse-Ends : (order : Order) (rows : List Fields) → Ends (refuse s lib defaults order rows)
  unfolding refuse
  refuse-Ends order rows =
      >>=-Ends _ _ (lift-Elsewhere _)
        (λ existing. if-Ends _ _ _ (replay-Ends existing) (reject_running-Ends existing))

  after_start-Outcome :
      (c : String) (order : Order) (at : String) (version : ℤ) (o : Result (Unit {0})) (w u : W)
      → Only t c "RUNNING" w u
      → (r : Reply) → (after_start s lib defaults c order at version o u).0 ≡ ok r
      → Outcome w r (after_start s lib defaults c order at version o u).1
  unfolding after_start Outcome lift
  after_start-Outcome c order at version (ok started) w u k r h =
      let ran = >>=-pure (s.write_audit_log "CYCLE_START" c) (created c order at version) r u h in
      subst (λ x. Outcome w x (log u).1) ran.3
        (subst (λ o. Only t c "RUNNING" w o.1) (sym ran.2)
          (Only-same t c "RUNNING" w u _ k (d.audit_elsewhere "CYCLE_START" c u)))
    where
      log : Action W Reply
      log = s.write_audit_log "CYCLE_START" c >>= λ written. pure (created c order at version)
  after_start-Outcome c order at version (err e) w u k r h = branch (is_client_error e) h
    where
      fail : Action W Bool
      fail = s.cycles.update_item c always (set_field "status" (str "START_FAILED"))

      branch :
          (b : Bool)
          → ((if b then (fail >>= λ failed. pure (start_failed c)) else lift (err e)) u).0 ≡ ok r
          → Outcome w r
              ((if b then (fail >>= λ failed. pure (start_failed c)) else lift (err e)) u).1
      branch true g =
          let ran = >>=-pure fail (start_failed c) r u g in
          let marked =
            write-Only t c "START_FAILED" _ fail (d.updates c always _)
              (lookup-set_field_same "status" (str "START_FAILED")) u ran.0 ran.1 in
          subst (λ x. Outcome w x ((fail >>= λ failed. pure (start_failed c)) u).1) ran.3
            (subst (λ o. Only t c "START_FAILED" w o.1) (sym ran.2)
              (Only-Only t c "RUNNING" "START_FAILED" w u _ k marked))
      branch false g = cc

  -- The row is put, and then the execution is started.
  put_and_start : String → Order → ℤ → String → Action W Reply
  put_and_start c order version at = do
    put ← s.cycles.put_item c always (cycle_item c order version at)
    started ← attempt (s.start_execution ("cycle-" ++ c) (sfn_input c order version))
    after_start s lib defaults c order at version started

  put_and_start-Ends :
      (c : String) (order : Order) (version : ℤ) (at : String)
      → Ends (put_and_start c order version at)
  unfolding put_and_start Ends ◌>>=◌ continue attempt
  put_and_start-Ends c order version at w r h =
      let put = s.cycles.put_item c always (cycle_item c order version at) in
      let execute = s.start_execution ("cycle-" ++ c) (sfn_input c order version) in
      let ran =
        >>=-returns put (λ x. attempt execute >>= after_start s lib defaults c order at version) w r
          h in
      let u = (put w).1 in
      let running =
        write-Only t c "RUNNING" _ put (d.puts c always _)
          (λ row. cycle_item-status c order version at) w ran.0 ran.1 in
      subst (λ o. Outcome w r o.1) (sym ran.2)
        (after_start-Outcome c order at version (execute u).0 w (execute u).1
          (Only-same t c "RUNNING" w u (execute u).1 running (d.start_elsewhere _ _ u)) r
          (sym (ap (λ o. o.0) ran.2) ∙ h))

  version-Elsewhere : Elsewhere t (get_dict_version s lib defaults)
  unfolding get_dict_version
  version-Elsewhere =
      (>>=-Keeps (Unchanged-IsPreorder t) s.get_meta _ (record { run = d.meta_elsewhere })
        (λ item. lift-Keeps (Unchanged-IsPreorder t) _)).run

  empty-Elsewhere : Elsewhere t (is_active_dictionary_empty s lib defaults)
  unfolding is_active_dictionary_empty
  empty-Elsewhere =
      (>>=-Keeps p _ _ (record { run = d.category_elsewhere "SAFE" })
        (λ safe.
          >>=-Keeps p _ _ (record { run = d.category_elsewhere "INJURED" })
            (λ injured.
              >>=-Keeps p _ _ (record { run = d.category_elsewhere "UNAVAILABLE" })
                (λ unavailable. pure-Keeps p _)))).run
    where
      p : IsPreorder (Unchanged t)
      p = Unchanged-IsPreorder t

  start-Ends : (order : Order) → Ends (start s lib defaults order)
  unfolding start put_and_start
  start-Ends order = >>=-Ends _ _ version-Elsewhere (λ version.
      >>=-Ends _ _ d.uuid_elsewhere
        (λ c. >>=-Ends _ _ d.now_elsewhere (λ at. put_and_start-Ends c order version at)))

  start_if_free-Ends : (order : Order) → Ends (start_if_free s lib defaults order)
  unfolding start_if_free
  start_if_free-Ends order = >>=-Ends _ _ d.running_elsewhere (λ rows.
      >>=-Ends _ _ (lift-Elsewhere _)
        (λ free. if-Ends (not free) _ _ (refuse-Ends order rows) (start-Ends order)))

  reject_empty-Ends : Ends (reject_empty s lib defaults)
  unfolding reject_empty Outcome
  reject_empty-Ends =
      >>=-Ends _ _ (d.audit_elsewhere _ _) (λ written. pure-Ends dictionary_empty (λ w j. refl))

  -- Where a request to start a cycle is answered: after "created" the new cycle is RUNNING, after a
  -- failed start it is START_FAILED, and the rows of all other cycles are as before; after any other
  -- answer, a replay or a rejection, no cycle has changed. The services are any that act on the table
  -- of the cycles as documented.
  pub create_cycle-Outcome :
      (body headers : Fields) (w : W) (r : Reply)
      → (create_cycle s lib defaults body headers w).0 ≡ ok r
      → Outcome w r (create_cycle s lib defaults body headers w).1
  unfolding create_cycle Ends
  create_cycle-Outcome body headers = >>=-Ends _ _ (lift-Elsewhere _) (λ order.
      >>=-Ends _ _ empty-Elsewhere
        (λ empty. if-Ends empty _ _ reject_empty-Ends (start_if_free-Ends order)))
