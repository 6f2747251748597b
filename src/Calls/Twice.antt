-- ===== src/Calls/Twice.antt =====
-- A call that ends twice: Connect may call the handler of the end more than once.
use emergency_contact.Prelude.{
  String, ◌≡◌, refl, sym, subst, ap, ◌∙◌, ◌⊎◌, inl, inr, Bool, Option, some,
}
use emergency_contact.Prelude.Int.{ℤ}
use emergency_contact.Python.Results.{Result, ok, err, Error}
use emergency_contact.Python.Values.{Value, Fields, lookup}
use emergency_contact.Python.Actions.{
  Action, pure, lift, ◌>>=◌, >>=-returns, >>=-ok, >>=-cases, Keeps, >>=-Keeps, pure-Keeps,
}
use emergency_contact.Aws.Tables.{not_exists}
use emergency_contact.Aws.Rows.{
  Rows, Unchanged, Unchanged-IsPreorder, HasField, lookup-set_field, lookup-set_field_same,
  Writes-HasField, Writes-same,
}
use emergency_contact.Calls.Services.{Key, Services, Documented}
use emergency_contact.Calls.Ending.{
  Reply, end_call, record_call_end, send_task_success, end_parsed, lambda_handler,
}
use emergency_contact.Calls.Ending.Event.{Parsed, parse_event}

-- The response that the event is about.
abbrev pub key_of : Parsed → Key
key_of p = (p.cycle_id, p.employee_id)

module _ {W : Type 0} (t : Rows W Key) (s : Services W) (d : Documented t s) where
  end_call_sets :
      (code : Value) (now : String) (row : Fields)
      → lookup "callResultCode" (end_call code now row) ≡ some code
  unfolding end_call
  end_call_sets code now row =
      lookup-set_field "callResultCode" "endedAt" _ _ refl
      ∙ lookup-set_field_same "callResultCode" code row

  -- After a write that answers, the item has the attribute.
  record_call_end-HasField :
      (p : Parsed) (w : W) (b : Bool)
      → (record_call_end s p w).0 ≡ ok b
      → (v : Value) × HasField "callResultCode" v (t.row_at (record_call_end s p w).1 (key_of p))
  unfolding record_call_end
  record_call_end-HasField p w b h =
      let ran = >>=-returns s.utc_now_iso _ w b h in
      let there =
        Writes-HasField t "callResultCode" _ _ _ (d.updates (key_of p) _ _) p.call_result_code
          (end_call_sets p.call_result_code ran.0) (s.utc_now_iso w).1 b
          (sym (ap (λ o. o.0) ran.2) ∙ h) in
      (
        there.0,
        subst (λ o. HasField "callResultCode" there.0 (t.row_at o.1 (key_of p))) (sym ran.2)
            there.1,
      )

  -- A write for an item that has the attribute changes nothing.
  record_call_end-same :
      (p : Parsed) (w : W) (v : Value)
      → HasField "callResultCode" v (t.row_at w (key_of p))
      → Unchanged t w (record_call_end s p w).1
  unfolding record_call_end
  record_call_end-same p w v h = step (>>=-cases s.utc_now_iso write w)
    where
      write : String → Action W Bool
      write now =
          s.responses.update_item (key_of p) (not_exists "callResultCode")
            (end_call p.call_result_code now)

      step :
          ((a : String) × ((s.utc_now_iso w).0 ≡ ok a)
              × (record_call_end s p w ≡ write a (s.utc_now_iso w).1))
            ⊎ ((e : Error) × ((s.utc_now_iso w).0 ≡ err e)
                × (record_call_end s p w ≡ (err e, (s.utc_now_iso w).1)))
          → Unchanged t w (record_call_end s p w).1
      step (inl (now, g, e)) j =
          ap (λ o. t.row_at o.1 j) e
          ∙ Writes-same t "callResultCode" (key_of p) _ (write now) (d.updates (key_of p) _ _) _ v
              (h.0, d.now_elsewhere w _ ∙ h.1, h.2) j
          ∙ d.now_elsewhere w j
      step (inr (x, g, e)) j = ap (λ o. t.row_at o.1 j) e ∙ d.now_elsewhere w j

  release : Parsed → Action W Reply
  release p = do
    released ← send_task_success s p
    pure (record { contact_id = p.contact_id; call_result_code = p.call_result_code })

  release-Unchanged : (p : Parsed) → Keeps (Unchanged t) (release p)
  unfolding release send_task_success
  release-Unchanged p =
      >>=-Keeps (Unchanged-IsPreorder t) _ _ (record { run = d.send_elsewhere _ _ })
        (λ released. pure-Keeps (Unchanged-IsPreorder t) _)

  -- After a run that returns, the response has a result code.
  ended-HasField :
      (p : Parsed) (w : W) (r : Reply)
      → (end_parsed s p w).0 ≡ ok r
      → (v : Value) × HasField "callResultCode" v (t.row_at (end_parsed s p w).1 (key_of p))
  unfolding end_parsed release
  ended-HasField p w r h =
      let ran = >>=-returns (record_call_end s p) (λ recorded. release p) w r h in
      let there = record_call_end-HasField p w ran.0 ran.1 in
      let kept = (release-Unchanged p).run (record_call_end s p w).1 (key_of p) in
      let now = ap (λ o. t.row_at o.1 (key_of p)) ran.2 ∙ kept in
      (there.0, (there.1.0, now ∙ there.1.1, there.1.2))

  -- A run for a response that has a result code changes no response.
  ended-same :
      (p : Parsed) (w : W) (v : Value)
      → HasField "callResultCode" v (t.row_at w (key_of p))
      → Unchanged t w (end_parsed s p w).1
  unfolding end_parsed release
  ended-same p w v h = step (>>=-cases (record_call_end s p) (λ recorded. release p) w)
    where
      recorded : Result Bool × W
      recorded = record_call_end s p w

      step :
          ((b : Bool) × (recorded.0 ≡ ok b) × (end_parsed s p w ≡ release p recorded.1))
            ⊎ ((e : Error) × (recorded.0 ≡ err e) × (end_parsed s p w ≡ (err e, recorded.1)))
          → Unchanged t w (end_parsed s p w).1
      step (inl (b, g, e)) j =
          ap (λ o. t.row_at o.1 j) e
          ∙ (release-Unchanged p).run recorded.1 j
          ∙ record_call_end-same p w v h j
      step (inr (x, g, e)) j = ap (λ o. t.row_at o.1 j) e ∙ record_call_end-same p w v h j

  runs :
      (int_of_text : String → Option ℤ) (event : Value) (p : Parsed) (w : W)
      → parse_event int_of_text event ≡ ok p
      → lambda_handler s int_of_text event w ≡ end_parsed s p w
  unfolding lambda_handler lift
  runs int_of_text event p w e =
      >>=-ok (lift (parse_event int_of_text event)) (λ parsed. end_parsed s parsed) w p e

  -- A call that ends twice: once the handler has returned for a valid event, a further run with a valid
  -- event for the same response changes no response, whatever its result code is and also if it raises.
  pub ended_twice :
      (int_of_text : String → Option ℤ) (first second : Value) (p q : Parsed) (w : W) (r : Reply)
      → parse_event int_of_text first ≡ ok p
      → parse_event int_of_text second ≡ ok q
      → key_of q ≡ key_of p
      → (lambda_handler s int_of_text first w).0 ≡ ok r
      → Unchanged t
          (lambda_handler s int_of_text first w).1
          (lambda_handler s int_of_text second (lambda_handler s int_of_text first w).1).1
  ended_twice int_of_text first second p q w r e f same h j =
      let one = runs int_of_text first p w e in
      let after = (lambda_handler s int_of_text first w).1 in
      let two = runs int_of_text second q after f in
      let there = ended-HasField p w r (sym (ap (λ o. o.0) one) ∙ h) in
      let here : HasField "callResultCode" there.0 (t.row_at after (key_of q)) = (
        there.1.0,
        ap (λ k. t.row_at after k) same ∙ ap (λ o. t.row_at o.1 (key_of p)) one ∙ there.1.1,
        there.1.2,
      ) in
      ap (λ o. t.row_at o.1 j) two ∙ ended-same q after there.0 here j
