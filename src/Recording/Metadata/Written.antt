-- ===== src/Recording/Metadata/Written.antt =====
-- The rows of the recordings over runs of the metadata writer, and the estimate of a duration.
use emergency_contact.Prelude.{
  ℕ, zero, suc, ◌+◌, ◌*◌, ◌^◌, ◌<◌, ◌≤◌, String, ◌≡◌, refl, sym, ap, subst, ◌∙◌, Bool, true, false,
  ◌==◌, Option, some, arith,
}
use emergency_contact.Python.Results.{Result, ok, err, ok_injective}
use emergency_contact.Python.Values.{Value, str, Fields, lookup}
use emergency_contact.Python.Actions.{
  Action, lift, ◌>>=◌, Keeps, >>=-Keeps, pure-Keeps, lift-Keeps, Returns, >>=-Returns,
  lift->>=-Returns, >>=-pure,
}
use emergency_contact.Python.Floats.{rounded}
use emergency_contact.Python.Floats.Bounds.{rounded-exact}
use emergency_contact.Aws.Tables.{not_exists}
use emergency_contact.Aws.Rows.{
  Rows, Writes, Elsewhere, HasField, Writes-HasField, lookup-set_field,
}
use emergency_contact.Aws.Preserved.{
  Preserved, Preserved-IsPreorder, Elsewhere-Preserved, Writes-Preserved,
}
use emergency_contact.Aws.Retries.{retry-Keeps, retry-Returns}
use emergency_contact.Keyword.Event.{parse_event}
use emergency_contact.Recording.Parsing.{RecordingKeyInfo, Kind, outbound, inbound}
use emergency_contact.Recording.Metadata.{
  Services, Library, Reply, is_retryable, rounded_quotient, with_duration,
  estimate_duration_seconds, default_bitrate_kbps, build_recording_meta_item, with_contact,
  write_once, write_metadata_with_retry, write_recording, lambda_handler,
}

-- A recording of less than 2 ^ 53 bytes has an estimate, which is within half a second of the length
-- of a recording of 16,000 bytes a second.
pub estimate-bounds :
    (size : ℕ)
    → size < 2 ^ 53
    → (e : ℕ) × (estimate_duration_seconds size default_bitrate_kbps ≡ ok e)
      × (size ≤ 16000 * e + 8000)
      × (16000 * e ≤ size + 8000)
unfolding estimate_duration_seconds rounded_quotient
estimate-bounds zero small = (0, refl, omega arith, omega arith)
estimate-bounds (suc n) small =
    let (x, divided, above, below) = rounded-exact (suc n) small in
    let given : (suc n == 0) ≡ false = ground arith in
    (rounded x, rw (divided, given) refl, above, below)

pub record Documented {W : Type 0} (t : Rows W (String × String)) (s : Services W) : Type 0 where
  pub puts :
      (k : String × String) (test : Option Fields → Bool) (row : Fields)
      → Writes t k test (λ old. row) (s.recordings.put_item k test row)
  pub now_elsewhere : Elsewhere t s.utc_now_iso
  pub sleep_elsewhere : (i : ℕ) → Elsewhere t (s.back_off i)

-- The row itself, which has its key.
abbrev pub IsRow : Value → Fields → Fields → Type 0
IsRow id old row = (lookup "cycleId" old ≡ some id) × (row ≡ old)

not_replaced :
    (id : Value) (old row new : Fields)
    → not_exists "cycleId" (some row) ≡ true
    → IsRow id old row
    → IsRow id old new
unfolding not_exists
not_replaced id old row new passed h =
    let there = ap (lookup "cycleId") h.1 ∙ h.0 in let never = rw there at passed in cc

with_contact-key :
    (kind : Kind) (contact_id : String) (d : Fields)
    → lookup "cycleId" (with_contact kind contact_id d) ≡ lookup "cycleId" d
unfolding with_contact
with_contact-key outbound contact_id d = refl
with_contact-key inbound contact_id d = lookup-set_field "cycleId" "contactId" _ d refl

with_duration-key :
    (info : RecordingKeyInfo) (bucket key : Value) (size : ℕ) (now : String) (o : Result ℕ)
    (item : Fields)
    → with_duration info bucket key size now o ≡ ok item
    → lookup "cycleId" item ≡ some (str info.meta_pk)
unfolding with_duration
with_duration-key info bucket key size now (err e) item h = cc
with_duration-key info bucket key size now (ok n) item h =
    ap (lookup "cycleId") (sym (ok_injective h)) ∙ with_contact-key info.kind info.seq_or_contact _

item_key :
    (info : RecordingKeyInfo) (bucket key : Value) (size : ℕ) (now : String) (item : Fields)
    → build_recording_meta_item info bucket key size now ≡ ok item
    → lookup "cycleId" item ≡ some (str info.meta_pk)
unfolding build_recording_meta_item
item_key info bucket key size now item h = with_duration-key info bucket key size now _ item h

module _ {W : Type 0} (t : Rows W (String × String)) (s : Services W) (d : Documented t s)
    (lib : Library) where
  module _ (id : Value) (old : Fields) where
    abbrev pub Kept : W → W → Type 0
    Kept = Preserved t (IsRow id old)

    keep :
        {A B : Type 0} (m : Action W A) (f : A → Action W B)
        → Keeps Kept m
        → ((a : A) → Keeps Kept (f a))
        → Keeps Kept (m >>= f)
    keep = >>=-Keeps (Preserved-IsPreorder t (IsRow id old))

    leave : {A : Type 0} (m : Action W A) → Elsewhere t m → Keeps Kept m
    leave = Elsewhere-Preserved t (IsRow id old)

    keep_lift : {A : Type 0} (r : Result A) → Keeps Kept (lift r)
    keep_lift = lift-Keeps (Preserved-IsPreorder t (IsRow id old))

    write-Keeps :
        (info : RecordingKeyInfo) (item : Fields)
        → Keeps Kept (write_metadata_with_retry s lib info item)
    unfolding write_metadata_with_retry write_once
    write-Keeps info item =
        retry-Keeps is_retryable s.back_off _ (Preserved-IsPreorder t (IsRow id old))
          (λ i. leave _ (d.sleep_elsewhere i)) _
          (Writes-Preserved t (IsRow id old) _ (not_exists "cycleId") _ _ (d.puts _ _ _)
            (λ row. not_replaced id old row item))

    lambda_handler-Keeps : (event : Value) → Keeps Kept (lambda_handler s lib event)
    unfolding lambda_handler write_recording
    lambda_handler-Keeps event = keep _ _ (keep_lift (parse_event event)) (λ place.
        keep _ _ (keep_lift _) (λ info. keep _ _ (leave _ d.now_elsewhere) (λ now.
          keep _ _ (keep_lift _) (λ item.
            keep _ _ (write-Keeps info item)
              (λ written. pure-Keeps (Preserved-IsPreorder t (IsRow id old)) _)))))

  -- The recording of the reply has its row.
  abbrev pub HasRow : Reply → W → Type 0
  HasRow r w = (v : Value) × HasField "cycleId" v (t.row_at w (r.meta_pk, r.meta_sk))

  write-Returns :
      (info : RecordingKeyInfo) (item : Fields)
      → lookup "cycleId" item ≡ some (str info.meta_pk)
      → Returns
          (λ b w. (v : Value) × HasField "cycleId" v (t.row_at w (info.meta_pk, info.meta_sk)))
          (write_metadata_with_retry s lib info item)
  unfolding write_metadata_with_retry write_once
  write-Returns info item has_key = retry-Returns is_retryable s.back_off _ _ _ (record {
    holds = λ w b h.
        Writes-HasField t "cycleId" _ _ _ (d.puts _ _ _) (str info.meta_pk) (λ row. has_key) w b h;
  })

  write_recording-HasRow :
      (event : Value) (place : Value × Value) (info : RecordingKeyInfo)
      → Returns HasRow (write_recording s lib event place info)
  unfolding write_recording
  write_recording-HasRow event place info = >>=-Returns HasRow _ _ (λ now.
      lift->>=-Returns HasRow _ _ (λ item built. record {
        holds = λ w r h.
            let (b, answered, ran, is) =
              >>=-pure (write_metadata_with_retry s lib info item) _ _ w h in
            let has_key = item_key info place.0 place.1 _ now item built in
            let there = (write-Returns info item has_key).holds w b answered in
            subst (λ o. HasRow r o.1) (sym ran)
              (subst (λ x. HasRow x (write_metadata_with_retry s lib info item w).1) is there);
      }))

  -- A run that returns leaves a row for the recording of its reply.
  pub lambda_handler-HasRow :
      (event : Value) (w : W) (r : Reply)
      → (lambda_handler s lib event w).0 ≡ ok r
      → HasRow r (lambda_handler s lib event w).1
  unfolding lambda_handler
  lambda_handler-HasRow event w =
      (>>=-Returns HasRow (lift (parse_event event)) _
          (λ place. >>=-Returns HasRow _ _ (λ info. write_recording-HasRow event place info))).holds
        w

  -- The row of a recording that is there before a run is the same afterwards, for every event and also
  -- where the run raises.
  pub written_once :
      (id : Value) (old : Fields) (event : Value) (w : W)
      → Preserved t (IsRow id old) w (lambda_handler s lib event w).1
  written_once id old event w = (lambda_handler-Keeps id old event).run w
