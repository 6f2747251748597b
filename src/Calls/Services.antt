-- ===== src/Calls/Services.antt =====
-- What the dispatcher and the call end handler call: DynamoDB, Connect, Step Functions and S3.
use emergency_contact.Prelude.{ℕ, String, ◌≡◌, ◌≢◌, Bool, Option, suc}
use emergency_contact.Python.Results.{err, exhausted}
use emergency_contact.Python.Values.{Value, Fields}
use emergency_contact.Python.Actions.{Action}
use emergency_contact.Aws.Tables.{Table}
use emergency_contact.Aws.Rows.{Rows, Writes, Elsewhere}

-- The key of a response: cycleId and employeeId, whose types the handlers do not test.
abbrev pub Key : Type 0
Key = Value × Value

-- The answer of `start_outbound_voice_contact` is the ContactId of its response, null where it has
-- none. `back_off` sleeps for the delay of a retry. `send_task_success` has the token and the output
-- that is dumped as JSON.
pub record Services (W : Type 0) : Type 0 where
  pub utc_now_iso : Action W String
  pub responses : Table W Key
  pub start_outbound_voice_contact : Value → Fields → Action W Value
  pub back_off : ℕ → Action W (Unit {0})
  pub put_object : String → Action W (Unit {0})
  pub send_task_success : Value → Value → Action W (Unit {0})

-- The effect of the services on the table of the responses.
pub record Documented {W : Type 0} (t : Rows W Key) (s : Services W) : Type 0 where
  pub updates :
      (k : Key) (test : Option Fields → Bool) (change : Fields → Fields)
      → Writes t k test change (s.responses.update_item k test change)
  pub now_elsewhere : Elsewhere t s.utc_now_iso
  pub start_elsewhere : (n : Value) (a : Fields) → Elsewhere t (s.start_outbound_voice_contact n a)
  pub sleep_elsewhere : (i : ℕ) → Elsewhere t (s.back_off i)
  pub put_elsewhere : (k : String) → Elsewhere t (s.put_object k)
  pub send_elsewhere : (k v : Value) → Elsewhere t (s.send_task_success k v)

-- An action that calls nobody.
abbrev pub Silent : {W A : Type 0} → (W → ℕ) → Action W A → Type 0
Silent {W = W} calls m = (w : W) → calls (m w).1 ≡ calls w

-- `calls` counts the requests to Connect, of which each is one. The exception of the dispatcher's own
-- is raised by none of its calls.
pub record Counted {W : Type 0} (calls : W → ℕ) (s : Services W) : Type 0 where
  pub started :
      (n : Value) (a : Fields) (w : W)
      → calls (s.start_outbound_voice_contact n a w).1 ≡ suc (calls w)
  pub start_raises :
      (n : Value) (a : Fields) (w : W) → (s.start_outbound_voice_contact n a w).0 ≢ err exhausted
  pub sleep_raises : (i : ℕ) (w : W) → (s.back_off i w).0 ≢ err exhausted
  pub now_silent : Silent calls s.utc_now_iso
  pub update_silent :
      (k : Key) (test : Option Fields → Bool) (change : Fields → Fields)
      → Silent calls (s.responses.update_item k test change)
  pub sleep_silent : (i : ℕ) → Silent calls (s.back_off i)
  pub put_silent : (k : String) → Silent calls (s.put_object k)
  pub send_silent : (k v : Value) → Silent calls (s.send_task_success k v)
