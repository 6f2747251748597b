-- ===== src/Dictionary/Api/Gap.antt =====
-- A change of the keyword dictionary that is refused after it has got its version.
use emergency_contact.Prelude.{
  String, ◌≡◌, ap, ◌∙◌, inl, inr, Bool, true, false, Option, some, arith,
}
use emergency_contact.Prelude.Int.{ℤ, pos, eq_ℤ, ◌+ℤ◌}
use emergency_contact.Python.Results.{ok, err, client_error}
use emergency_contact.Python.Values.{Value, int, str, Fields, lookup, mem}
use emergency_contact.Python.Actions.{Action, pure, lift, ◌>>=◌, continue, >>=-ok}
use emergency_contact.Aws.Tables.{set_field, not_exists}
use emergency_contact.Aws.Rows.{Rows, Checked, or_key}
use emergency_contact.CycleApi.Request.{Library}
use emergency_contact.Dictionary.Snapshot.{valid_categories}
use emergency_contact.Dictionary.Changes.{
  Change, meta_key, as_int, is_stored, has_version, version_condition, keyword_item,
}
use emergency_contact.Dictionary.Api.{
  Services, require_passed, increment_version, store_created, create_change,
}
use emergency_contact.Dictionary.Api.Versions.{
  Documented, VersionIs, update_version, write-Beside, not_meta, set_version-VersionIs,
}

-- A write that answers.
abbrev pub Answers : {W : Type 0} → Action W Bool → Type 0
Answers {W} m = (w : W) → (b : Bool) × ((m w).0 ≡ ok b)

eq_ℤ_refl : (n : ℤ) → eq_ℤ n n ≡ true
eq_ℤ_refl n = ground arith

expected-version_condition :
    (expected : Value) (n : ℤ) (o : Option Fields)
    → VersionIs n o
    → expected ≡ int n
    → version_condition expected o ≡ true
unfolding version_condition has_version is_stored not_exists as_int
expected-version_condition expected n o (row, e, c, v) is =
    rw (is, e, c, v) (ground (arith, eq_ℤ_refl n))

module _ {W H : Type 0} (history : W → H) (t : Rows W (String × String)) (s : Services W)
    (d : Documented t s) (lib : Library) (principal : Value) (p : Change) where
  abbrev pub put_keyword : ℤ → Action W Bool
  put_keyword version =
      s.keywords.put_item (p.category, p.keyword) (not_exists "category")
        (keyword_item p.category p.keyword version)

  abbrev pub next : ℤ
  next = as_int p.expected +ℤ pos 1

  increment-ran :
      (w : W)
      → (update_version t s d lib p.expected w).0 ≡ ok true
      → increment_version s lib p.expected w ≡ (ok next, (update_version t s d lib p.expected w).1)
  unfolding increment_version ◌>>=◌ continue lift pure require_passed
  increment-ran w h = >>=-ok (update_version t s d lib p.expected) _ w true h

  store-ran :
      (version : ℤ) (w : W)
      → (put_keyword version w).0 ≡ ok false
      → store_created s lib principal p version w
        ≡ (err (client_error "ConditionalCheckFailedException"), (put_keyword version w).1)
  unfolding store_created ◌>>=◌ continue lift require_passed
  store-ran version w h = >>=-ok (put_keyword version) _ w false h

  -- A keyword that stands, when the change begins.
  abbrev pub Stands : W → Type 0
  Stands w =
      (old : Fields) × (t.row_at w (p.category, p.keyword) ≡ some old)
      × (lookup "category" old ≡ some (str p.category))

  updated :
      (w : W) (n : ℤ)
      → VersionIs n (t.row_at w meta_key)
      → p.expected ≡ int n
      → Answers (update_version t s d lib p.expected)
      → (update_version t s d lib p.expected w).0 ≡ ok true
  updated w n there is answers = at_once (answers w)
    where
      at_once :
          ((b : Bool) × ((update_version t s d lib p.expected w).0 ≡ ok b))
          → (update_version t s d lib p.expected w).0 ≡ ok true
      at_once (true, h) = h
      at_once (false, h) =
          let met = expected-version_condition p.expected n _ there is in
          let failed = ((d.updates _ _ _).refused w h).0 in absurd (ground arith)

  not_put :
      (version : ℤ) (w : W)
      → Stands w
      → Answers (put_keyword version)
      → Checked t
          (p.category, p.keyword)
          (not_exists "category")
          (λ old. keyword_item p.category p.keyword version)
          (put_keyword version)
      → (put_keyword version w).0 ≡ ok false
  unfolding not_exists
  not_put version w (old, e, c) answers checks = at_once (answers w)
    where
      at_once :
          ((b : Bool) × ((put_keyword version w).0 ≡ ok b)) → (put_keyword version w).0 ≡ ok false
      at_once (false, h) = h
      at_once (true, h) = let met = checks.passed w h in let never = rw (e, c) at met in cc

  -- Where a keyword that stands is added again, in a valid category and with the version that is
  -- current, the change is refused with the error of a failed condition, but the version is one higher
  -- afterwards and the history as it was. Assumed are that the writes of the version and of the
  -- keyword answer, act and check their conditions as documented, and leave the history alone.
  pub added_again :
      (w : W) (n : ℤ)
      → mem p.category valid_categories ≡ true
      → VersionIs n (t.row_at w meta_key)
      → p.expected ≡ int n
      → Stands w
      → Answers (update_version t s d lib p.expected)
      → Answers (put_keyword next)
      → Checked t
          (p.category, p.keyword)
          (not_exists "category")
          (λ old. keyword_item p.category p.keyword next)
          (put_keyword next)
      → ((v : W) → history (update_version t s d lib p.expected v).1 ≡ history v)
      → ((v : W) → history (put_keyword next v).1 ≡ history v)
      → ((create_change s lib principal p w).0
          ≡ err (client_error "ConditionalCheckFailedException"))
        × VersionIs (n +ℤ pos 1) (t.row_at (create_change s lib principal p w).1 meta_key)
        × (history (create_change s lib principal p w).1 ≡ history w)
  unfolding create_change or_key as_int
  added_again w n valid there is stands up_answers put_answers checks up_keeps put_keeps =
      let u = (update_version t s d lib p.expected w).1 in
      let done = updated w n there is up_answers in
      let other = not_meta p.category p.keyword valid in
      let still : t.row_at u (p.category, p.keyword) ≡ t.row_at w (p.category, p.keyword) =
        elim ((d.updates _ _ _).changed w (p.category, p.keyword)) [
          | inl same ↦ same
          | inr new ↦ absurd (other new.0)
        ] in
      let first = increment-ran w done in
      let failed = not_put next u (stands.0, still ∙ stands.1, stands.2) put_answers checks in
      let ran : create_change s lib principal p w
          ≡ (err (client_error "ConditionalCheckFailedException"), (put_keyword next u).1) =
        >>=-ok (increment_version s lib p.expected) (store_created s lib principal p) w next
          (ap (λ o. o.0) first)
        ∙ ap (λ o. store_created s lib principal p next o.1) first
        ∙ store-ran next u failed in
      let new : t.row_at u meta_key ≡ some (set_field "currentVersion" (int next) there.0) =
        (d.updates _ _ _).written w done
        ∙ ap (λ o. some (set_field "currentVersion" (int next) (or_key o (t.key_fields meta_key))))
            there.1 in
      let beside =
        write-Beside t s d lib _ _ _ _ other (d.puts _ _ (keyword_item p.category p.keyword next))
          u in
      let set = set_version-VersionIs next there.0 there.2 in
      (
        ap (λ o. o.0) ran,
        (
          set.0,
          ap (λ o. t.row_at o.1 meta_key) ran ∙ beside ∙ new ∙ set.1,
          set.2,
          set.3 ∙ ap (λ e. some (int (as_int e +ℤ pos 1))) is,
        ),
        ap (λ o. history o.1) ran ∙ put_keeps u ∙ up_keeps w,
      )
