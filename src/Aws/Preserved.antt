-- ===== src/Aws/Preserved.antt =====
-- What the items of a table satisfy, and which writes preserve it.
use emergency_contact.Prelude.{◌≡◌, ap, sym, ◌∙◌, ◌⊎◌, inl, inr, Bool, true, Option, some}
use emergency_contact.Python.Values.{Fields}
use emergency_contact.Python.Actions.{Action, IsPreorder, Keeps}
use emergency_contact.Aws.Rows.{Rows, Writes, Elsewhere, or_key}

abbrev pub Holds : (Fields → Type 0) → Option Fields → Type 0
Holds P o = (row : Fields) × (o ≡ some row) × P row

module _ {W K : Type 0} (t : Rows W K) (P : Fields → Type 0) where
  -- An item that satisfies the predicate does so afterwards.
  pub record Preserved (before after : W) : Type 0 where
    pub preserved : (j : K) → Holds P (t.row_at before j) → Holds P (t.row_at after j)

  pub Preserved-IsPreorder : IsPreorder Preserved
  Preserved-IsPreorder = record {
    reflexive = λ w. record { preserved = λ j h. h };
    transitive = λ u v w g k. record { preserved = λ j h. k.preserved j (g.preserved j h) };
  }

  pub Elsewhere-Preserved : {A : Type 0} (m : Action W A) → Elsewhere t m → Keeps Preserved m
  Elsewhere-Preserved m u = record {
    run = λ w. record { preserved = λ j h. (h.0, u w j ∙ h.1, h.2) };
  }

  -- A conditional write preserves it if the change does, of an item that meets the condition.
  pub Writes-Preserved :
      (k : K) (test : Option Fields → Bool) (change : Fields → Fields) (m : Action W Bool)
      → Writes t k test change m
      → ((row : Fields) → test (some row) ≡ true → P row → P (change row))
      → Keeps Preserved m
  unfolding or_key
  Writes-Preserved k test change m d keep = record {
    run = λ w. record { preserved = λ j h. after w j h (d.changed w j) };
  }
    where
      after :
          (w : W) (j : K)
          → Holds P (t.row_at w j)
          → (t.row_at (m w).1 j ≡ t.row_at w j)
            ⊎ ((j ≡ k)
                × (test (t.row_at w k) ≡ true)
                × (t.row_at (m w).1 j ≡ some (change (or_key (t.row_at w k) (t.key_fields k)))))
          → Holds P (t.row_at (m w).1 j)
      after w j (row, e, h) (inl same) = (row, same ∙ e, h)
      after w j (row, e, h) (inr (here, passed, new)) =
          let old : t.row_at w k ≡ some row = ap (t.row_at w) (sym here) ∙ e in
          let now = rw old at new in
          let true_of = rw old at passed in (change row, now, keep row true_of h)
