-- ===== src/Examples/Keys.antt =====
-- The keys of the recordings at concrete inputs.
use emergency_contact.Prelude.{ℕ, String, ◌≡◌, refl, Bool, ◌≤◌, leb, ◌&&◌, some, true}
use emergency_contact.Prelude.Int.{pos}
use emergency_contact.Python.Results.{ok}
use emergency_contact.Python.Values.{Value, str, int}
use emergency_contact.Python.Texts as OfTexts
use emergency_contact.Recording.Keys as Keys
use emergency_contact.Recording.Parsing as Parsing
use emergency_contact.Recording.RoundTrip.{transcript_of_recording}
use emergency_contact.Recording.Derived.{derived_key-read}
use emergency_contact.Recording.JobName as JobName

abbrev is_decimal : ℕ → Bool
is_decimal c = leb 48 c && leb c 57

-- str(n), of the one digit that the examples have
abbrev text_of : Value → String
text_of v = "1"

abbrev recording : Parsing.RecordingKeyInfo
recording = Parsing.outbound_info "C1" "E1" "1" "transcripts/C1/E1/1.json"

read : Parsing.parse_recording_key is_decimal (str "recordings/C1/E1/1.wav") ≡ some recording
unfolding Parsing.cons_head Parsing.split_slash Parsing.prepend Parsing.before Parsing.or_else
    Parsing.before_end Parsing.count Parsing.contact_group Parsing.outbound_transcript
    Parsing.inbound_transcript Parsing.recording_inbound Parsing.recording_info
    Parsing.transcript_inbound Parsing.transcript_info Parsing.all_digits Parsing.is_number
    Parsing.is_month Parsing.seq_group Parsing.outbound_groups Parsing.inbound_groups
    Parsing.match_outbound Parsing.match_inbound Parsing.parse_recording_key
    Parsing.parse_transcript_key
read = refl

one_digit : Parsing.is_number is_decimal "1" ≡ true
unfolding Parsing.is_number Parsing.all_digits
one_digit = refl

derived :
    Keys.derive_target_outbound_key text_of (str "C1") (str "E1") (int (pos 1))
    ≡ ok "recordings/C1/E1/1.wav"
unfolding Keys.has_slash Keys.require_segment Keys.require_seq Keys.outbound_key
    Keys.derive_target_outbound_key
derived = refl

named :
    JobName.derive_transcribe_job_name (str "INBOUND#K1") (str "E1#0")
    ≡ ok "safety-confirm-INBOUND-K1-E1-0"
unfolding JobName.is_forbidden JobName.sanitize JobName.require_given JobName.shorten
    JobName.derive_transcribe_job_name Parsing.count OfTexts.take_chars
named = refl

transcript_of_recording_example :
    Parsing.parse_transcript_key is_decimal (str "transcripts/C1/E1/1.json") ≡ some recording
transcript_of_recording_example =
    transcript_of_recording is_decimal (str "recordings/C1/E1/1.wav") recording read

derived_key-read_example :
    Parsing.parse_recording_key is_decimal (str "recordings/C1/E1/1.wav") ≡ some recording
unfolding Parsing.outbound_transcript
derived_key-read_example =
    derived_key-read is_decimal refl text_of (λ n. one_digit) "C1" "E1" 1 "recordings/C1/E1/1.wav"
      derived

job_name-Bounded_example :
    JobName.IsClean "safety-confirm-INBOUND-K1-E1-0"
    × (Parsing.count "safety-confirm-INBOUND-K1-E1-0" ≤ 200)
job_name-Bounded_example =
    JobName.job_name-Bounded (str "INBOUND#K1") (str "E1#0") "safety-confirm-INBOUND-K1-E1-0" named
