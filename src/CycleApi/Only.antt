-- ===== src/CycleApi/Only.antt =====
-- A write to the table of the cycles that gives one cycle a status.
use emergency_contact.Prelude.{
  String, ◌≡◌, ◌≢◌, refl, ◌∙◌, ◌⊎◌, inl, inr, Bool, true, false, some, str_eq,
}
use emergency_contact.Prelude.Int.{ℤ}
use emergency_contact.Python.Results.{ok}
use emergency_contact.Python.Values.{is_truthy, Value, str, Fields, lookup}
use emergency_contact.Python.Actions.{Action}
use emergency_contact.Aws.Tables.{always}
use emergency_contact.Aws.Rows.{Rows, Writes, Unchanged, HasField, or_key, lookup-set_field}
use emergency_contact.CycleApi.Request.{Order}
use emergency_contact.CycleApi.Handler.{cycle_item, with_field, given_text}

with_field-status :
    (b : Bool) (name : String) (v : Value) (row : Fields)
    → str_eq name "status" ≡ false
    → lookup "status" (with_field b name v row) ≡ lookup "status" row
unfolding with_field
with_field-status false name v row h = refl
with_field-status true name v row h = lookup-set_field "status" name v row h

pub cycle_item-status :
    (c : String) (order : Order) (version : ℤ) (at : String)
    → lookup "status" (cycle_item c order version at) ≡ some (str "RUNNING")
unfolding cycle_item
cycle_item-status c order version at =
    with_field-status (given_text order.referenced_cycle_id) "referencedCycleId" _ _ refl
    ∙ with_field-status (is_truthy order.idempotency_key) "idempotencyKey" _ _ refl

module _ {W : Type 0} (t : Rows W String) where
  -- One cycle has a status now, and the others are as before.
  pub record Only (cycle_id status : String) (before after : W) : Type 0 where
    pub status_of : HasField "status" (str status) (t.row_at after cycle_id)
    pub others : (j : String) → j ≢ cycle_id → t.row_at after j ≡ t.row_at before j

  pub Only-same :
      (c status : String) (w u v : W) → Only c status w u → Unchanged t u v → Only c status w v
  Only-same c status w u v k same = record {
    status_of = (k.status_of.0, same c ∙ k.status_of.1, k.status_of.2);
    others = λ j ne. same j ∙ k.others j ne;
  }

  pub Only-Only : (c st su : String) (w u v : W) → Only c st w u → Only c su u v → Only c su w v
  Only-Only c st su w u v k g = record {
    status_of = g.status_of;
    others = λ j ne. g.others j ne ∙ k.others j ne;
  }

  -- A write without a condition that answers has written, and one key only.
  pub write-Only :
      (c status : String) (change : Fields → Fields) (m : Action W Bool)
      → Writes t c always change m
      → ((row : Fields) → lookup "status" (change row) ≡ some (str status))
      → (w : W) (b : Bool) → (m w).0 ≡ ok b
      → Only c status w (m w).1
  unfolding always
  write-Only c status change m k sets w true h = record {
    status_of = (_, k.written w h, sets _);
    others = λ j ne. other j ne (k.changed w j);
  }
    where
      other :
          (j : String)
          → j ≢ c
          → (t.row_at (m w).1 j ≡ t.row_at w j)
            ⊎ ((j ≡ c)
                × (always (t.row_at w c) ≡ true)
                × (t.row_at (m w).1 j ≡ some (change (or_key (t.row_at w c) (t.key_fields c)))))
          → t.row_at (m w).1 j ≡ t.row_at w j
      other j ne (inl same) = same
      other j ne (inr (e, p, n)) = absurd (ne e)
  write-Only c status change m k sets w false h = let never = (k.refused w h).0 in cc
