-- ===== src/Dictionary/Api/Versions.antt =====
-- The version of the keyword dictionary: what the writes of its API leave of it.
use emergency_contact.Prelude.{
  String, ◌≡◌, ◌≢◌, refl, ap, sym, subst, ◌∙◌, inl, inr, Bool, true, Option, some, List, arith,
}
use emergency_contact.Prelude.Int.{ℤ, pos, eq_ℤ, ◌+ℤ◌, ◌≤ℤ◌}
use emergency_contact.Python.Results.{ok, >>=-eq-ok, ok_injective}
use emergency_contact.Python.Values.{Value, int, str, Fields, get, lookup, mem}
use emergency_contact.Python.Actions.{Action, IsPreorder, Keeps}
use emergency_contact.Aws.Tables.{set_field, not_exists}
use emergency_contact.Aws.Rows.{
  Rows, Writes, Checked, Removes, Elsewhere, or_key, lookup-set_field, lookup-set_field_same,
}
use emergency_contact.CycleApi.Request.{Library}
use emergency_contact.Dictionary.Snapshot.{valid_categories}
use emergency_contact.Dictionary.Changes.{
  Change, meta_key, parse_change, require_category, require_keyword, require_expected, as_int,
  is_stored, has_version, version_condition,
}
use emergency_contact.Dictionary.Api.{Services}

-- The effect of the services on the table of the keywords.
pub record Documented {W : Type 0} (t : Rows W (String × String)) (s : Services W) : Type 0 where
  pub gets_elsewhere : (k : String × String) → Elsewhere t (s.keywords.get_item k)
  pub puts :
      (k : String × String) (test : Option Fields → Bool) (row : Fields)
      → Writes t k test (λ old. row) (s.keywords.put_item k test row)
  pub updates :
      (k : String × String) (test : Option Fields → Bool) (change : Fields → Fields)
      → Writes t k test change (s.keywords.update_item k test change)
  pub update_checks :
      (k : String × String) (test : Option Fields → Bool) (change : Fields → Fields)
      → Checked t k test change (s.keywords.update_item k test change)
  pub deletes :
      (k : String × String) (test : Option Fields → Bool) → Removes t k (s.delete_item k test)
  pub scan_elsewhere : Elsewhere t s.scan
  pub batch_elsewhere : (rows : List Fields) → Elsewhere t (s.put_batch rows)
  pub log_elsewhere :
      (event_type : String) (principal : Value) (target : String) (extra : Fields)
      → Elsewhere t (s.write_audit_log event_type principal target extra)

-- The row of the version, which has its key.
abbrev pub VersionIs : ℤ → Option Fields → Type 0
VersionIs n o =
    (row : Fields) × (o ≡ some row)
    × (lookup "category" row ≡ some (str "META"))
    × (lookup "currentVersion" row ≡ some (int n))

eq_ℤ_sound : (a b : ℤ) → eq_ℤ a b ≡ true → a ≡ b
eq_ℤ_sound a b h = ground arith

is_stored-int : (v : Value) (n : ℤ) → is_stored v (some (int n)) ≡ true → as_int v ≡ n
unfolding is_stored as_int
is_stored-int (int m) n h = eq_ℤ_sound m n h
is_stored-int _ n h = cc

-- Where the condition holds of a row of a version, that version was expected.
pub version_condition-expected :
    (expected : Value) (n : ℤ) (o : Option Fields)
    → VersionIs n o
    → version_condition expected o ≡ true
    → as_int expected ≡ n
unfolding version_condition has_version not_exists
version_condition-expected expected n o (row, e, c, v) h =
    let there = rw (e, c) at h in
    let stored : is_stored expected (lookup "currentVersion" row) ≡ true = ground arith in
    is_stored-int expected n (rw v at stored)

pub set_version-VersionIs :
    (n : ℤ) (row : Fields)
    → lookup "category" row ≡ some (str "META")
    → VersionIs n (some (set_field "currentVersion" (int n) row))
set_version-VersionIs n row c = (
  _,
  refl,
  lookup-set_field "category" "currentVersion" _ row refl ∙ c,
  lookup-set_field_same "currentVersion" _ row,
)

pub not_meta : (c k : String) → mem c valid_categories ≡ true → (c, k) ≢ meta_key
unfolding mem
not_meta c k h e = let same : c ≡ "META" = ap (λ q. q.0) e in let never = rw same at h in cc

require_category-Valid :
    (v : Value) (c : String) → require_category v ≡ ok c → mem c valid_categories ≡ true
unfolding require_category
require_category-Valid (str s) c h = ground arith
require_category-Valid _ c h = cc

pub parse_change-Valid :
    (place body : Fields) (p : Change)
    → parse_change place body ≡ ok p
    → mem p.category valid_categories ≡ true
unfolding parse_change
parse_change-Valid place body p h =
    let (c, e, rest) = >>=-eq-ok (require_category (get "category" place)) _ h in
    let (k, e', rest') = >>=-eq-ok (require_keyword (get "keyword" place)) _ rest in
    let (x, e'', rest'') = >>=-eq-ok (require_expected (get "expectedVersion" body)) _ rest' in
    subst (λ q. mem q.category valid_categories ≡ true) (ok_injective rest'')
      (require_category-Valid _ c e)

module _ {W : Type 0} (t : Rows W (String × String)) where
  -- The row of the version has its key, where it is there.
  abbrev pub Keyed : W → Type 0
  Keyed w =
      lookup "category" (or_key (t.row_at w meta_key) (t.key_fields meta_key)) ≡ some (str "META")

  -- A version that is there is not lowered.
  pub record Advances (before after : W) : Type 0 where
    pub advances :
        (n : ℤ)
        → VersionIs n (t.row_at before meta_key)
        → (m : ℤ) × VersionIs m (t.row_at after meta_key) × (n ≤ℤ m)

  pub Advances-IsPreorder : IsPreorder Advances
  Advances-IsPreorder = record {
    reflexive = λ w. record { advances = λ n h. (n, h, omega arith) };
    transitive = λ u v w g k. record {
      advances = λ n h.
          let (m, there, up) = g.advances n h in
          let (l, now, further) = k.advances m there in (l, now, omega arith);
    };
  }

  abbrev pub Beside : {A : Type 0} → Action W A → Type 0
  Beside m = (w : W) → t.row_at (m w).1 meta_key ≡ t.row_at w meta_key

  pub Beside-Advances : {A : Type 0} (m : Action W A) → Beside m → Keeps Advances m
  Beside-Advances m u = record {
    run = λ w. record { advances = λ n h. (n, (h.0, u w ∙ h.1, h.2, h.3), omega arith) };
  }

module _ {W : Type 0} (t : Rows W (String × String)) (s : Services W) (d : Documented t s)
    (lib : Library) where
  -- A write at another key.
  pub write-Beside :
      (k : String × String) (test : Option Fields → Bool) (change : Fields → Fields)
      (m : Action W Bool)
      → k ≢ meta_key
      → Writes t k test change m
      → Beside t m
  write-Beside k test change m other e w = elim (e.changed w meta_key) [
    | inl same ↦ same
    | inr new ↦ absurd (other (sym new.0))
  ]

  pub delete-Beside :
      (k : String × String) (test : Option Fields → Bool)
      → k ≢ meta_key
      → Beside t (s.delete_item k test)
  delete-Beside k test other w = elim ((d.deletes k test).changed w meta_key) [
    | inl same ↦ same
    | inr new ↦ absurd (other (sym new.0))
  ]

  abbrev pub update_version : Value → Action W Bool
  update_version expected =
      s.keywords.update_item meta_key (version_condition expected)
        (set_field "currentVersion" (int (as_int expected +ℤ pos 1)))

  next_version : (a n : ℤ) → a ≡ n → n ≤ℤ (a +ℤ pos 1)
  unfolding ◌+ℤ◌
  next_version a n e = rw e (ground arith)

  pub update_version-Advances : (expected : Value) → Keeps (Advances t) (update_version expected)
  unfolding or_key
  update_version-Advances expected = record { run = λ w. record { advances = after w } }
    where
      after :
          (w : W) (n : ℤ)
          → VersionIs n (t.row_at w meta_key)
          → (m : ℤ) × VersionIs m (t.row_at (update_version expected w).1 meta_key) × (n ≤ℤ m)
      after w n (row, e, c, v) = elim ((d.updates _ _ _).changed w meta_key) [
        | inl same ↦ (n, (row, same ∙ e, c, v), omega arith)
        | inr new ↦
            let is = version_condition-expected expected n _ (row, e, c, v) new.1 in
            let now = rw e at new.2 in
            let there = set_version-VersionIs (as_int expected +ℤ pos 1) row c in
            (_, (there.0, now ∙ there.1, there.2, there.3), next_version _ n is)
      ]
