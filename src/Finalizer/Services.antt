-- ===== src/Finalizer/Services.antt =====
-- What the finalizer calls: DynamoDB, Step Functions, EventBridge, SNS and CloudWatch.
use emergency_contact.Prelude.{ℕ, String, ◌≡◌, ◌⊎◌, Bool, true, Option, some, List}
use emergency_contact.Python.Actions.{Action}
use emergency_contact.Python.Values.{Fields}
use emergency_contact.Cycle.Finalize.{Summary}

-- The message for the operators.
pub record Notice : Type 0 where
  pub cycle_id : String
  pub event : String
  pub summary : Summary
  pub stopped_responses : Option ℕ

-- An update has the condition and the change of its expressions; its answer is false on a
-- ConditionalCheckFailedException. An answer of the others is false where the source passes over the
-- error code. A query delivers its pages.
pub record Services (W : Type 0) : Type 0 where
  pub utc_now_iso : Action W String
  pub get_cycle : String → Action W (Option Fields)
  pub query_pages : String → Action W (List (List Fields))
  pub update_cycle : String → (Fields → Bool) → (Fields → Fields) → Action W Bool
  pub update_response : String → String → (Fields → Bool) → (Fields → Fields) → Action W Bool
  pub stop_execution : String → Action W Bool
  pub remove_targets : String → Action W Bool
  pub delete_rule : String → Action W Bool
  pub publish : String → Notice → Action W (Unit {0})
  pub put_metric : String → String → Action W (Unit {0})

-- The rows that the tables hold.
pub record Tables (W : Type 0) : Type 0 where
  pub cycle_at : W → String → Option Fields
  pub response_at : W → String → String → Option Fields

-- A row is as before, or it passed the condition and is changed.
abbrev pub Updated : (Fields → Bool) → (Fields → Fields) → Option Fields → Option Fields → Type 0
Updated test change before after =
    (after ≡ before)
    ⊎ ((row : Fields) × (before ≡ some row) × (test row ≡ true) × (after ≡ some (change row)))

module _ {W : Type 0} (t : Tables W) where
  -- The action leaves both tables alone.
  abbrev pub Untouched : {A : Type 0} → Action W A → Type 0
  Untouched m =
      (w : W)
      → ((c : String) → t.cycle_at (m w).1 c ≡ t.cycle_at w c)
        × ((c e : String) → t.response_at (m w).1 c e ≡ t.response_at w c e)

  -- The documented effect of the services on the tables: only an update changes a row, and only if
  -- its condition holds.
  pub record Documented (s : Services W) : Type 0 where
    pub now_reads : Untouched s.utc_now_iso
    pub get_reads : (c : String) → Untouched (s.get_cycle c)
    pub query_reads : (c : String) → Untouched (s.query_pages c)
    pub stop_elsewhere : (a : String) → Untouched (s.stop_execution a)
    pub remove_elsewhere : (n : String) → Untouched (s.remove_targets n)
    pub delete_elsewhere : (n : String) → Untouched (s.delete_rule n)
    pub publish_elsewhere : (u : String) (n : Notice) → Untouched (s.publish u n)
    pub metric_elsewhere : (n c : String) → Untouched (s.put_metric n c)
    pub cycle_updated :
        (k : String) (test : Fields → Bool) (change : Fields → Fields) (w : W) (c : String)
        → Updated test change (t.cycle_at w c) (t.cycle_at (s.update_cycle k test change w).1 c)
    pub cycle_only :
        (k : String) (test : Fields → Bool) (change : Fields → Fields) (w : W) (c e : String)
        → t.response_at (s.update_cycle k test change w).1 c e ≡ t.response_at w c e
    pub response_updated :
        (k i : String) (test : Fields → Bool) (change : Fields → Fields) (w : W) (c e : String)
        → Updated test change
            (t.response_at w c e)
            (t.response_at (s.update_response k i test change w).1 c e)
    pub response_only :
        (k i : String) (test : Fields → Bool) (change : Fields → Fields) (w : W) (c : String)
        → t.cycle_at (s.update_response k i test change w).1 c ≡ t.cycle_at w c
