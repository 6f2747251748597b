-- ===== src/Recording/Parsing.antt =====
-- backend/shared/recording/s3_keys.py: the parts of a key. The class `\d` of code points is a
-- parameter. The groups `[^/]+` are the texts between the slashes, and `$` also matches before a
-- newline that ends the text.
use Prim.Native.Char.{Char, code}
use Prim.Native.String.{◌++◌}
use emergency_contact.Prelude.{
  ℕ, suc, String, Bool, true, false, not, ◌&&◌, ◌==◌, Option, none, some, List, [], ◌∷◌, str_eq,
  if◌then◌else◌,
}
use emergency_contact.Python.Values.{Value, str}

pub data Kind : Type 0 where
  outbound inbound : Kind

pub record RecordingKeyInfo : Type 0 where
  pub kind : Kind
  pub cycle_id_or_inbound_prefix : String
  pub employee_id : String
  pub seq_or_contact : String
  pub transcript_s3_key : String
  pub meta_pk : String
  pub meta_sk : String

unfoldable pub cons_head : Char → List String → List String
cons_head c [] = String.◌∷◌ c "" ∷ []
cons_head c (w ∷ ws) = String.◌∷◌ c w ∷ ws

-- The texts between the slashes.
unfoldable pub split_slash : String → List String
unfolding cons_head
split_slash String.[] = "" ∷ []
split_slash (String.◌∷◌ c s) =
    let rest = split_slash s in if code c == code "/" then "" ∷ rest else cons_head c rest

unfoldable pub prepend : Char → Option String → Option String
prepend c none = none
prepend c (some s) = some (String.◌∷◌ c s)

-- The text before a suffix.
unfoldable pub before : String → String → Option String
unfolding prepend
before suffix String.[] = if str_eq "" suffix then some "" else none
before suffix (String.◌∷◌ c s) =
    let rest = before suffix s in if str_eq (String.◌∷◌ c s) suffix then some "" else prepend c rest

unfoldable pub or_else : Option String → Option String → Option String
or_else none other = other
or_else (some s) other = some s

-- The text before `ext$`.
unfoldable pub before_end : String → String → Option String
before_end ext s = or_else (before ext s) (before (ext ++ "\n") s)

unfoldable pub count : String → ℕ
count String.[] = 0
count (String.◌∷◌ c s) = suc (count s)

unfoldable pub contact_group : String → String → Option String → Option (String × String × String)
contact_group yyyymm employee_id none = none
contact_group yyyymm employee_id (some contact_id) =
    if str_eq contact_id "" then none else some (yyyymm, employee_id, contact_id)

abbrev pub outbound_info : String → String → String → String → RecordingKeyInfo
outbound_info cycle_id employee_id seq transcript_key = record {
  kind = outbound;
  cycle_id_or_inbound_prefix = cycle_id;
  employee_id = employee_id;
  seq_or_contact = seq;
  transcript_s3_key = transcript_key;
  meta_pk = cycle_id;
  meta_sk = employee_id ++ ("#" ++ seq);
}

abbrev pub inbound_info : String → String → String → RecordingKeyInfo
inbound_info employee_id contact_id transcript_key = record {
  kind = inbound;
  cycle_id_or_inbound_prefix = "INBOUND#" ++ contact_id;
  employee_id = employee_id;
  seq_or_contact = contact_id;
  transcript_s3_key = transcript_key;
  meta_pk = "INBOUND#" ++ contact_id;
  meta_sk = employee_id ++ "#0";
}

unfoldable pub outbound_transcript : String → String → String → String
outbound_transcript cycle_id employee_id seq =
    "transcripts" ++ ("/" ++ (cycle_id ++ ("/" ++ (employee_id ++ ("/" ++ (seq ++ ".json"))))))

unfoldable pub inbound_transcript : String → String → String → String
inbound_transcript yyyymm employee_id contact_id =
    "inbound" ++ ("/" ++ (yyyymm ++ ("/" ++ (employee_id ++ ("/" ++ (contact_id ++ ".json"))))))

unfoldable pub recording_inbound : Option (String × String × String) → Option RecordingKeyInfo
recording_inbound none = none
recording_inbound (some (yyyymm, employee_id, contact_id)) =
    some (inbound_info employee_id contact_id (inbound_transcript yyyymm employee_id contact_id))

unfoldable pub recording_info :
    Option (String × String × String) → Option (String × String × String) → Option RecordingKeyInfo
recording_info (some (cycle_id, employee_id, seq)) inbound_match =
    some (outbound_info cycle_id employee_id seq (outbound_transcript cycle_id employee_id seq))
recording_info none inbound_match = recording_inbound inbound_match

unfoldable pub transcript_inbound :
    String → Option (String × String × String) → Option RecordingKeyInfo
transcript_inbound key none = none
transcript_inbound key (some (yyyymm, employee_id, contact_id)) =
    some (inbound_info employee_id contact_id key)

unfoldable pub transcript_info :
    String
    → Option (String × String × String)
    → Option (String × String × String)
    → Option RecordingKeyInfo
transcript_info key (some (cycle_id, employee_id, seq)) inbound_match =
    some (outbound_info cycle_id employee_id seq key)
transcript_info key none inbound_match = transcript_inbound key inbound_match

module _ (is_decimal : ℕ → Bool) where
  unfoldable pub all_digits : String → Bool
  all_digits String.[] = true
  all_digits (String.◌∷◌ c s) = if is_decimal (code c) then all_digits s else false

  -- \d+
  unfoldable pub is_number : String → Bool
  is_number s = not (str_eq s "") && all_digits s

  -- \d{6}
  unfoldable pub is_month : String → Bool
  is_month s = all_digits s && count s == 6

  unfoldable pub seq_group : String → String → Option String → Option (String × String × String)
  seq_group cycle_id employee_id none = none
  seq_group cycle_id employee_id (some seq) =
      if is_number seq then some (cycle_id, employee_id, seq) else none

  unfoldable pub outbound_groups : String → String → List String → Option (String × String × String)
  outbound_groups folder ext (f ∷ cycle_id ∷ employee_id ∷ last ∷ []) =
      if str_eq f folder && not (str_eq cycle_id "") && not (str_eq employee_id "")
      then seq_group cycle_id employee_id (before_end ext last)
      else none
  outbound_groups folder ext _ = none

  unfoldable pub inbound_groups : String → List String → Option (String × String × String)
  inbound_groups ext (f ∷ yyyymm ∷ employee_id ∷ last ∷ []) =
      if str_eq f "inbound" && is_month yyyymm && not (str_eq employee_id "")
      then contact_group yyyymm employee_id (before_end ext last)
      else none
  inbound_groups ext _ = none

  -- _OUTBOUND_RE and _OUTBOUND_TRANSCRIPT_RE
  unfoldable pub match_outbound : String → String → String → Option (String × String × String)
  match_outbound folder ext key = outbound_groups folder ext (split_slash key)

  -- _INBOUND_RE and _INBOUND_TRANSCRIPT_RE
  unfoldable pub match_inbound : String → String → Option (String × String × String)
  match_inbound ext key = inbound_groups ext (split_slash key)

  unfoldable pub parse_recording_key : Value → Option RecordingKeyInfo
  parse_recording_key (str key) =
      if str_eq key ""
      then none
      else recording_info (match_outbound "recordings" ".wav" key) (match_inbound ".wav" key)
  parse_recording_key _ = none

  unfoldable pub parse_transcript_key : Value → Option RecordingKeyInfo
  parse_transcript_key (str key) =
      if str_eq key ""
      then none
      else transcript_info key (match_outbound "transcripts" ".json" key)
          (match_inbound ".json" key)
  parse_transcript_key _ = none
