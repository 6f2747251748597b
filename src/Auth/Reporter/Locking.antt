-- ===== src/Auth/Reporter/Locking.antt =====
-- Enough reported failures lock an account.
use emergency_contact.Prelude.{
  ℕ, suc, ◌≤◌, ◌≡◌, refl, sym, ap, ◌∙◌, ◌⊎◌, inl, inr, subst, false, Option, none, some, Bool, true,
  List, [], ◌∷◌, ◌++◌, arith, Bool-cases,
}
use emergency_contact.Prelude.Int.{ℤ, pos, ◌-ℤ◌, ◌+ℤ◌, ltb_ℤ}
use emergency_contact.Python.Results.{Result, ok, err, ok_injective, >>=-eq-ok}
use emergency_contact.Python.Values.{
  Value, int, list, Items, nil, cons, Fields, get, lookup, to_list,
}
use emergency_contact.Python.Actions.{pure, lift, attempt, ◌>>=◌, continue, >>=-returns, >>=-ok}
use emergency_contact.Aws.Tables.{set_field, always}
use emergency_contact.Aws.Rows.{
  Rows, Writes, Elsewhere, or_key, lookup-set_field, lookup-set_field_same,
}
use emergency_contact.Inbound.Items.{snoc}
use emergency_contact.Auth.Failures.{failures_of, times_in, elements_of, ints_of}
use emergency_contact.Employee.Email.{is_valid_email}
use emergency_contact.CycleApi.Request.{Library, parse_body, int_of}
use emergency_contact.CycleApi.Handler.{is_client_error}
use emergency_contact.Auth.Lockout.{is_locked, count_newer, is_locked_iff}
use emergency_contact.Auth.Reporter.{
  FailureLog, Reply, append_time, failure_row, accepted, after_append, record_failure, report_user,
  read_report, is_report, report_failure,
}

-- What the calls do to the table of the users, as documented.
pub record Documented {W : Type 0} (t : Rows W Value) (s : FailureLog W) : Type 0 where
  pub keys_only : (u : Value) → lookup "failedAts" (t.key_fields u) ≡ none
  pub now_elsewhere : Elsewhere t s.now_epoch
  pub updates :
      (u : Value) (test : Option Fields → Bool) (change : Fields → Fields)
      → Writes t u test change (s.users.update_item u test change)
  pub log_elsewhere : (u : Value) → Elsewhere t (s.write_audit_log u)

newer-append :
    (cutoff t : ℤ) (ts : List ℤ)
    → ltb_ℤ cutoff t ≡ true
    → count_newer cutoff (ts ++ t ∷ []) ≡ suc (count_newer cutoff ts)
unfolding count_newer
newer-append cutoff t [] h = ground arith
newer-append cutoff t (x ∷ xs) h = ground (arith, newer-append cutoff t xs h)

-- The item has the times `ts`, in a list or without the attribute.
abbrev pub HasTimes : Library → List ℤ → Option Fields → Type 0
HasTimes lib ts o =
    (failures_of lib o ≡ ok ts)
    × ((row : Fields)
        → o ≡ some row
        → (lookup "failedAts" row ≡ none)
          ⊎ ((vs : Items) × (lookup "failedAts" row ≡ some (list vs))))

module _ (lib : Library) (t : ℤ) where
  ints_of-snoc :
      (vs : Items) (ts : List ℤ)
      → ints_of lib (to_list vs) ≡ ok ts
      → ints_of lib (to_list (snoc vs (int t))) ≡ ok (ts ++ t ∷ [])
  unfolding ints_of snoc int_of
  ints_of-snoc nil ts h = ap (λ ns. ok (ns ++ t ∷ [])) (ok_injective h)
  ints_of-snoc (cons v vs) ts h =
      let (n, is_n, rest) = >>=-eq-ok (int_of lib v) _ h in
      let (ns, is_ns, e) = >>=-eq-ok (ints_of lib (to_list vs)) _ rest in
      let added = ints_of-snoc vs ns is_ns in
      rw (is_n, added) (ap (λ xs. ok (xs ++ t ∷ [])) (ok_injective e))

  reads :
      (row : Fields) (v : Value) (ts : List ℤ)
      → lookup "failedAts" row ≡ some v
      → times_in lib v ≡ ok ts
      → failures_of lib (some row) ≡ ok ts
  unfolding failures_of
  reads row v ts e h = rw e h

  failure_row-times :
      (expire : ℤ) (row : Fields)
      → lookup "failedAts" (failure_row t expire row)
        ≡ some (append_time t (lookup "failedAts" row))
  unfolding failure_row
  failure_row-times expire row =
      lookup-set_field "failedAts" "expireAt" (int expire)
        (set_field "failedAts" (append_time t (lookup "failedAts" row)) row) refl
      ∙ lookup-set_field_same "failedAts" (append_time t (lookup "failedAts" row)) row

  -- The change of an item appends the time.
  row-adds :
      (expire : ℤ) (row : Fields) (ts : List ℤ)
      → HasTimes lib ts (some row)
      → failures_of lib (some (failure_row t expire row)) ≡ ok (ts ++ t ∷ [])
  unfolding failures_of append_time times_in elements_of snoc
  row-adds expire row ts (old, shape) = elim (shape row refl) [
    | inl e ↦
        let now = rw e at old in
        reads (failure_row t expire row) _ _
          (failure_row-times expire row ∙ ap (λ o. some (append_time t o)) e)
          (ints_of-snoc nil ts now)
    | inr e ↦
        let now = rw e.1 at old in
        reads (failure_row t expire row) _ _
          (failure_row-times expire row ∙ ap (λ o. some (append_time t o)) e.1)
          (ints_of-snoc e.0 ts now)
  ]

module _ {W : Type 0} (t : Rows W Value) (s : FailureLog W) (d : Documented t s)
    (lib : Library) where
  key-HasTimes :
      (u : Value) (ts : List ℤ) (o : Option Fields)
      → HasTimes lib ts o
      → HasTimes lib ts (some (or_key o (t.key_fields u)))
  unfolding or_key failures_of times_in elements_of ints_of
  key-HasTimes u ts none (reads, shape) =
      let plain = d.keys_only u in
      (rw plain reads, λ row e. inl (ap (lookup "failedAts") (sym (some_row e)) ∙ plain))
    where
      some_row : {a b : Fields} → ◌≡◌ {A = Option Fields} (some a) (some b) → a ≡ b
      some_row h = cc
  key-HasTimes u ts (some row) h = h

  update-adds :
      (now expire : ℤ) (u : Value) (w : W) (b : Bool) (ts : List ℤ)
      → HasTimes lib ts (t.row_at w u)
      → (s.users.update_item u always (failure_row now expire) w).0 ≡ ok b
      → failures_of lib (t.row_at (s.users.update_item u always (failure_row now expire) w).1 u)
        ≡ ok (ts ++ now ∷ [])
  unfolding always
  update-adds now expire u w true ts old h =
      ap (failures_of lib) ((d.updates u _ _).written w h)
      ∙ row-adds lib now expire _ ts (key-HasTimes u ts _ old)
  update-adds now expire u w false ts old h =
      let never = ((d.updates u _ _).refused w h).0 in absurd (ground arith)

  after_append-adds :
      (u : Value) (o : Result Bool) (w : W)
      → (after_append s u o w).0 ≡ ok (accepted true)
      → ((b : Bool) × (o ≡ ok b)) × (t.row_at (after_append s u o w).1 u ≡ t.row_at w u)
  unfolding after_append lift pure ◌>>=◌ continue
  after_append-adds u (ok b) w h =
      let (x, is_x, run) = >>=-returns (s.write_audit_log u) (λ x. pure (accepted true)) w _ h in
      ((b, refl), ap (λ (p : Result Reply × W). t.row_at p.1 u) run ∙ d.log_elsewhere u w u)
  after_append-adds u (err e) w h = elim (Bool-cases (is_client_error e)) [
    | inl c ↦ let never = rw c at h in cc
    | inr c ↦ let never = rw c at h in cc
  ]

  append-adds :
      (now expire : ℤ) (u : Value) (w : W) (ts : List ℤ)
      → HasTimes lib ts (t.row_at w u)
      → ((attempt (s.users.update_item u always (failure_row now expire)) >>= after_append s u) w).0
        ≡ ok (accepted true)
      → failures_of lib (
          t.row_at
            ((attempt (s.users.update_item u always (failure_row now expire)) >>= after_append s u)
              w).1
            u)
        ≡ ok (ts ++ now ∷ [])
  unfolding attempt ◌>>=◌ continue
  append-adds now expire u w ts old h =
      let (answered, same) = after_append-adds u _ _ h in
      ap (failures_of lib) same ∙ update-adds now expire u w answered.0 ts old answered.1

  record_failure-adds :
      (window now : ℤ) (u : Value) (w : W) (ts : List ℤ)
      → HasTimes lib ts (t.row_at w u)
      → (s.now_epoch w).0 ≡ ok now
      → (record_failure s window u w).0 ≡ ok (accepted true)
      → failures_of lib (t.row_at (record_failure s window u w).1 u) ≡ ok (ts ++ now ∷ [])
  unfolding record_failure
  record_failure-adds window now u w ts old e h =
      let run =
        >>=-ok s.now_epoch
          (λ x.
            attempt (s.users.update_item u always (failure_row x (x +ℤ window)))
            >>= after_append s u)
          w now e in
      let still = subst (HasTimes lib ts) (sym (d.now_elsewhere w u)) old in
      ap (λ (p : Result Reply × W). failures_of lib (t.row_at p.1 u)) run
      ∙ append-adds now (now +ℤ window) u _ ts still
          (sym (ap (λ (p : Result Reply × W). p.0) run) ∙ h)

  module _ (is_space : ℕ → Bool) (window : ℤ) where
    report_user-adds :
        (now : ℤ) (u : Value) (w : W) (ts : List ℤ)
        → HasTimes lib ts (t.row_at w u)
        → (s.now_epoch w).0 ≡ ok now
        → (report_user s lib is_space window u w).0 ≡ ok (accepted true)
        → failures_of lib (t.row_at (report_user s lib is_space window u w).1 u)
          ≡ ok (ts ++ now ∷ [])
    unfolding report_user pure
    report_user-adds now u w ts old e h = elim (Bool-cases (is_valid_email is_space u)) [
      | inl c ↦
          let h1 = rw c at h in
          let added = record_failure-adds window now u w ts old e h1 in rw (c, added)
      | inr c ↦ let never = rw c at h in cc
    ]

    report_failure-adds :
        (event body : Fields) (now : ℤ) (w : W) (ts : List ℤ)
        → HasTimes lib ts (t.row_at w (get "userIdentifier" body))
        → parse_body lib (get "body" event) ≡ ok body
        → (s.now_epoch w).0 ≡ ok now
        → (report_failure s lib is_space window event w).0 ≡ ok (accepted true)
        → failures_of lib
            (t.row_at (report_failure s lib is_space window event w).1 (get "userIdentifier" body))
          ≡ ok (ts ++ now ∷ [])
    unfolding report_failure read_report pure
    report_failure-adds event body now w ts old p e h = elim (Bool-cases (is_report event)) [
      | inl c ↦
          let h1 = rw (c, p) at h in
          let added = report_user-adds now (get "userIdentifier" body) w ts old e h1 in
          rw (c, p, added)
      | inr c ↦ let never = rw c at h in cc
    ]

    -- A report that is recorded counts: where the user has no item, or one whose times are in a list or
    -- missing, at least as many of them lie in the window as the threshold less one, and the report
    -- lies in the window too, then the times that are read of the item afterwards lock the account. The
    -- calls act on the table of the users as documented, and a key has no times.
    pub report_failure-locks :
        (event body : Fields) (at now span : ℤ) (n : ℕ) (w : W) (ts : List ℤ)
        → HasTimes lib ts (t.row_at w (get "userIdentifier" body))
        → parse_body lib (get "body" event) ≡ ok body
        → (s.now_epoch w).0 ≡ ok at
        → (report_failure s lib is_space window event w).0 ≡ ok (accepted true)
        → ltb_ℤ (now -ℤ span) at ≡ true
        → n ≤ count_newer (now -ℤ span) ts
        → (found : List ℤ) × (failures_of lib (
              t.row_at (report_failure s lib is_space window event w).1 (get "userIdentifier" body))
            ≡ ok found)
          × (is_locked found now (pos (suc n)) span ≡ true)
    report_failure-locks event body at now span n w ts old p e h recent many =
        let added = report_failure-adds event body at w ts old p e h in
        let more = newer-append (now -ℤ span) at ts recent in
        let locked = is_locked_iff (ts ++ at ∷ []) now span n in
        (ts ++ at ∷ [], added, locked.1 (ground (arith, more)))
