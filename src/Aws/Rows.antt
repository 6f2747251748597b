-- ===== src/Aws/Rows.antt =====
-- What DynamoDB documents of a write, and the attributes that a write leaves alone.
use emergency_contact.Prelude.{
  String, ◌≡◌, refl, sym, ◌∙◌, ap, ◌⊎◌, inl, inr, Bool, true, false, Option, none, some, str_eq,
  Bool-cases, Option-cases, arith, eq_iff, eq_refl,
}
use emergency_contact.Python.Results.{ok}
use emergency_contact.Python.Values.{Value, Fields, end, field, lookup}
use emergency_contact.Python.Actions.{Action, IsPreorder, Keeps}
use emergency_contact.Aws.Tables.{set_field, add_one_to, not_exists}

-- The items that a table holds, and the attributes of a key.
pub record Rows (W K : Type 0) : Type 0 where
  pub row_at : W → K → Option Fields
  pub key_fields : K → Fields

unfoldable pub or_key : Option Fields → Fields → Fields
or_key none key = key
or_key (some row) key = row

module _ {W K : Type 0} (t : Rows W K) where
  abbrev pub Unchanged : W → W → Type 0
  Unchanged before after = (j : K) → t.row_at after j ≡ t.row_at before j

  pub Unchanged-IsPreorder : IsPreorder Unchanged
  Unchanged-IsPreorder = record { reflexive = λ w j. refl; transitive = λ u v w g k j. k j ∙ g j }

  -- The action leaves the table alone.
  abbrev pub Elsewhere : {A : Type 0} → Action W A → Type 0
  Elsewhere m = (w : W) (j : K) → t.row_at (m w).1 j ≡ t.row_at w j

module _ {W K : Type 0} (t : Rows W K) (k : K) (test : Option Fields → Bool)
    (change : Fields → Fields) (m : Action W Bool) where
  -- The documented effect of a conditional write: one that raises may have written or not.
  pub record Writes : Type 0 where
    pub changed :
        (w : W) (j : K)
        → (t.row_at (m w).1 j ≡ t.row_at w j)
          ⊎ ((j ≡ k)
              × (test (t.row_at w k) ≡ true)
              × (t.row_at (m w).1 j ≡ some (change (or_key (t.row_at w k) (t.key_fields k)))))
    pub written :
        (w : W)
        → (m w).0 ≡ ok true
        → t.row_at (m w).1 k ≡ some (change (or_key (t.row_at w k) (t.key_fields k)))
    pub refused :
        (w : W)
        → (m w).0 ≡ ok false
        → (test (t.row_at w k) ≡ false) × (t.row_at (m w).1 k ≡ t.row_at w k)

  -- The condition of a write that answers true was met.
  pub record Checked : Type 0 where
    pub passed : (w : W) → (m w).0 ≡ ok true → test (t.row_at w k) ≡ true

module _ {W K : Type 0} (t : Rows W K) (k : K) (m : Action W Bool) where
  -- The documented effect of a conditional delete: one that raises may have deleted or not.
  pub record Removes : Type 0 where
    pub changed :
        (w : W) (j : K)
        → (t.row_at (m w).1 j ≡ t.row_at w j) ⊎ ((j ≡ k) × (t.row_at (m w).1 j ≡ none))

pub lookup-set_field_same :
    (k : String) (v : Value) (d : Fields) → lookup k (set_field k v d) ≡ some v
unfolding set_field
lookup-set_field_same k v end = rw eq_refl
lookup-set_field_same k v (field j w d) = elim (Bool-cases (str_eq j k)) [
  | inl e ↦ rw (e, e)
  | inr e ↦ rw (e, e, lookup-set_field_same k v d)
]

pub lookup-set_field :
    (j k : String) (v : Value) (d : Fields)
    → str_eq k j ≡ false
    → lookup j (set_field k v d) ≡ lookup j d
unfolding set_field
lookup-set_field j k v end h = rw h
lookup-set_field j k v (field i w d) h = elim (Bool-cases (str_eq i k)) [
  | inl e ↦
      let same = (eq_iff i k).0 e in let other : str_eq i j ≡ false = rw (same, h) in rw (e, other)
  | inr e ↦ let rest = lookup-set_field j k v d h in rw (e, rest)
]

pub lookup-add_one_to :
    (j k : String) (d : Fields) → str_eq k j ≡ false → lookup j (add_one_to k d) ≡ lookup j d
unfolding add_one_to
lookup-add_one_to j k end h = rw h
lookup-add_one_to j k (field i w d) h = elim (Bool-cases (str_eq i k)) [
  | inl e ↦
      let same = (eq_iff i k).0 e in let other : str_eq i j ≡ false = rw (same, h) in rw (e, other)
  | inr e ↦ let rest = lookup-add_one_to j k d h in rw (e, rest)
]

-- An attribute that an item has stays as it is.
abbrev pub HasField : String → Value → Option Fields → Type 0
HasField name v o = (row : Fields) × (o ≡ some row) × (lookup name row ≡ some v)

pub not_exists-HasField :
    (name : String) (v : Value) (o : Option Fields) → HasField name v o → not_exists name o ≡ false
unfolding not_exists
not_exists-HasField name v o (row, e, h) = rw (e, h)

pub HasField-of_not_exists :
    (name : String) (o : Option Fields)
    → not_exists name o ≡ false
    → (v : Value) × HasField name v o
unfolding not_exists
HasField-of_not_exists name none h = cc
HasField-of_not_exists name (some row) h = elim (Option-cases (lookup name row)) [
  | inl e ↦ let never = rw e at h in cc
  | inr e ↦ (e.0, (row, refl, e.1))
]

module _ {W K : Type 0} (t : Rows W K) (name : String) where
  pub record Fixed (before after : W) : Type 0 where
    pub fixed :
        (j : K) (v : Value)
        → HasField name v (t.row_at before j)
        → HasField name v (t.row_at after j)

  pub Fixed-IsPreorder : IsPreorder Fixed
  Fixed-IsPreorder = record {
    reflexive = λ w. record { fixed = λ j v h. h };
    transitive = λ u v w g k. record { fixed = λ j x h. k.fixed j x (g.fixed j x h) };
  }

  pub Elsewhere-Fixed : {A : Type 0} (m : Action W A) → Elsewhere t m → Keeps Fixed m
  Elsewhere-Fixed m u = record { run = λ w. record { fixed = λ j v h. (h.0, u w j ∙ h.1, h.2) } }

  -- A write keeps the attribute if its condition or its change does.
  pub Writes-Fixed :
      (k : K) (test : Option Fields → Bool) (change : Fields → Fields) (m : Action W Bool)
      → Writes t k test change m
      → ((row : Fields) (v : Value)
          → test (some row) ≡ true
          → lookup name row ≡ some v
          → lookup name (change row) ≡ some v)
      → Keeps Fixed m
  unfolding or_key
  Writes-Fixed k test change m d keep = record {
    run = λ w. record { fixed = λ j v h. after w j v h (d.changed w j) };
  }
    where
      after :
          (w : W) (j : K) (v : Value)
          → HasField name v (t.row_at w j)
          → (t.row_at (m w).1 j ≡ t.row_at w j)
            ⊎ ((j ≡ k)
                × (test (t.row_at w k) ≡ true)
                × (t.row_at (m w).1 j ≡ some (change (or_key (t.row_at w k) (t.key_fields k)))))
          → HasField name v (t.row_at (m w).1 j)
      after w j v (row, e, h) (inl same) = (row, same ∙ e, h)
      after w j v (row, e, h) (inr (here, passed, new)) =
          let old : t.row_at w k ≡ some row = ap (t.row_at w) (sym here) ∙ e in
          let now = rw old at new in
          let true_of = rw old at passed in (change row, now, keep row v true_of h)

  -- A write that sets the attribute where it is missing: after an answer it is there, and no further
  -- such write changes anything.
  pub Writes-HasField :
      (k : K) (change : Fields → Fields) (m : Action W Bool)
      → Writes t k (not_exists name) change m
      → (v : Value) → ((row : Fields) → lookup name (change row) ≡ some v)
      → (w : W) (b : Bool) → (m w).0 ≡ ok b
      → (x : Value) × HasField name x (t.row_at (m w).1 k)
  Writes-HasField k change m d v sets w true h = (v, (_, d.written w h, sets _))
  Writes-HasField k change m d v sets w false h =
      let no = d.refused w h in HasField-of_not_exists name _ (ap (not_exists name) no.1 ∙ no.0)

  pub Writes-same :
      (k : K) (change : Fields → Fields) (m : Action W Bool)
      → Writes t k (not_exists name) change m
      → (w : W) (v : Value) → HasField name v (t.row_at w k)
      → (j : K) → t.row_at (m w).1 j ≡ t.row_at w j
  Writes-same k change m d w v h j = go (d.changed w j)
    where
      go :
          (t.row_at (m w).1 j ≡ t.row_at w j)
            ⊎ ((j ≡ k)
                × (not_exists name (t.row_at w k) ≡ true)
                × (t.row_at (m w).1 j ≡ some (change (or_key (t.row_at w k) (t.key_fields k)))))
          → t.row_at (m w).1 j ≡ t.row_at w j
      go (inl same) = same
      go (inr (here, passed, new)) =
          let refused = not_exists-HasField name v _ h in absurd (ground arith)
