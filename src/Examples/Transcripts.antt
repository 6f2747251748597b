-- ===== src/Examples/Transcripts.antt =====
-- The keyword matcher and the keys of the recordings at concrete inputs.
use emergency_contact.Prelude.{
  ℕ, String, ◌≡◌, refl, Bool, true, ◌&&◌, none, some, List, [], ◌∷◌, str_eq, leb, arith, eq_iff,
}
use emergency_contact.Prelude.Int.{pos}
use emergency_contact.Python.Results.{ok, err, value_error}
use emergency_contact.Python.Values.{
  Value, null, str, int, list, dict, Items, nil, cons, Fields, end, field, get, is_truthy, lookup,
  get_or, mem,
}
use emergency_contact.Python.Actions.{Action, ◌>>=◌, continue, lift, pure, attempt}
use emergency_contact.Aws.Tables.{set_field, always}
use emergency_contact.Aws.Rows.{Rows, Fixed}
use emergency_contact.Aws.Retries.{retry, retry_from, after_try}
use emergency_contact.Recording.Parsing.{outbound_info}
use emergency_contact.Keyword.Transcript.{Floats}
use emergency_contact.Keyword.Handler.{Services, Library, Reply, matched, fallback, lambda_handler}
use emergency_contact.Keyword.Handler.Rows.{Documented}
use emergency_contact.Keyword.Handler.Stored.{Stored, lambda_handler-Stored}
use emergency_contact.Keyword.Handler.Others.{others-Fixed}
use emergency_contact.Keyword.Handler as OfHandler
use emergency_contact.Keyword.Event as OfEvent
use emergency_contact.Keyword.Transcript as OfTranscript
use emergency_contact.Recording.Parsing as OfParsing
use emergency_contact.Keyword.Matcher as OfMatcher
use emergency_contact.Dictionary.Snapshot as OfSnapshot
use emergency_contact.Python.Actions as OfActions
use emergency_contact.Python.Values as OfValues
use emergency_contact.Aws.Retries as OfRetries
use emergency_contact.Aws.Tables as OfTables
use emergency_contact.Python.Sorting as OfSorting
use emergency_contact.Examples.Memory.{Memory, memory_table, memory_rows, update-Writes}

abbrev Pair : Type 0
Pair = String × String

abbrev same_pair : Pair → Pair → Bool
same_pair (a, b) (c, d) = str_eq a c && str_eq b d

same_pair_eq : (j k : Pair) → same_pair j k ≡ true → j ≡ k
same_pair_eq (a, b) (c, d) h =
    let both : (str_eq a c ≡ true) × (str_eq b d ≡ true) = ground arith in
    let first = (eq_iff a c).0 both.0 in
    let second = (eq_iff b d).0 both.1 in λ i. (first i, second i)

abbrev pair_item : Pair → Fields
pair_item k = field "cycleId" (str k.0) (field "employeeId" (str k.1) end)

abbrev Store : Type 0
Store = Memory same_pair pair_item

abbrev transcript : Value
transcript = dict (
    field "results"
      (dict
        (field "transcripts" (list (cons (dict (field "transcript" (str "I am ok") end)) nil)) end))
      end)

abbrev history : List (List Fields)
history = (field "category" (str "SAFE") (field "keyword" (str "ok") end) ∷ []) ∷ []

abbrev bucket : Services Store
bucket = record {
  get_object = λ b k w. (ok "…", w);
  get_cycle = λ c w. (ok (some (field "dictionaryVersion" (int (pos 3)) end)), w);
  query_history = λ v w. (ok history, w);
  responses = memory_table same_pair pair_item;
  transcripts = record {
    get_item = λ k w. (ok none, w);
    put_item = λ k test row w. (ok true, w);
    update_item = λ k test change w. (ok true, w);
  };
  back_off = λ i w. (ok tt, w);
}

abbrev responses : Rows Store Pair
responses = memory_rows same_pair pair_item

bucket-Documented : Documented responses bucket
bucket-Documented = record {
  updates = update-Writes same_pair pair_item same_pair_eq;
  get_elsewhere = λ b k w j. refl;
  cycle_elsewhere = λ c w j. refl;
  query_elsewhere = λ v w j. refl;
  meta_elsewhere = λ k test change w j. refl;
  sleep_elsewhere = λ i w j. refl;
}

abbrev is_decimal : ℕ → Bool
is_decimal c = leb 48 c && leb c 57

abbrev python : Library
python = record {
  loads = λ raw. some transcript;
  text_of = λ v. "3";
  int_of_text = λ s. some (pos 3);
  lower = λ s. s;
  is_decimal = is_decimal;
}

-- Floats that are read as hundredths.
abbrev hundredths : Floats ℕ
hundredths = record {
  float = λ v. err value_error;
  is_unit = λ n. leb n 100;
  mean = λ ns. 0;
  zero_float = 0;
  to_decimal = λ n. int (pos n);
}

abbrev created : Value
created = dict (
    field "detail"
      (dict (
        field "bucket" (dict (field "name" (str "transcripts") end))
          (field "object" (dict (field "key" (str "transcripts/C1/E1/1.json") end)) end)))
      end)

abbrev empty_store : Store
empty_store = ((λ k. none), 0)

abbrev answer : Reply ℕ
answer =
    matched (outbound_info "C1" "E1" "1" "transcripts/C1/E1/1.json") "SAFE" ("ok" ∷ []) (pos 3) 0

replies : (lambda_handler bucket python hundredths created empty_store).0 ≡ ok answer
unfolding OfHandler.require_loaded OfHandler.require_version OfHandler.require_outbound
    OfHandler.read_transcript_body OfHandler.version_of OfHandler.resolve_dictionary_version
    OfHandler.get_dictionary_snapshot OfHandler.record_response OfHandler.record_transcript_meta
    OfHandler.run_matching_pipeline OfHandler.run_with_retry OfHandler.after_run
    OfHandler.match_parsed OfHandler.lambda_handler OfEvent.parse_event OfTranscript.require_dict
    OfTranscript.require_text OfTranscript.require_first OfTranscript.average
    OfTranscript.extract_transcript_payload OfParsing.split_slash OfParsing.before OfParsing.or_else
    OfParsing.before_end OfParsing.transcript_info OfParsing.all_digits OfParsing.is_number
    OfParsing.seq_group OfParsing.outbound_groups OfParsing.match_outbound
    OfParsing.parse_transcript_key OfMatcher.contains OfMatcher.add_keyword OfMatcher.match_keywords
    OfMatcher.keywords_of OfMatcher.first_match OfMatcher.classify_voice_status
    OfSnapshot.append_keyword OfSnapshot.accept OfSnapshot.collect OfSnapshot.sort_all
    OfSnapshot.to_snapshot OfSnapshot.as_dict OfActions.◌>>=◌ OfActions.lift OfActions.pure
    OfActions.attempt OfValues.get OfValues.is_truthy OfValues.mem OfRetries.after_try
    OfRetries.retry_from OfRetries.retry OfTables.always OfSorting.sort
replies = refl

lambda_handler-Stored_example :
    Stored responses bucket bucket-Documented python hundredths answer
      (lambda_handler bucket python hundredths created empty_store).1
lambda_handler-Stored_example =
    lambda_handler-Stored responses bucket bucket-Documented python hundredths created empty_store
      answer replies

others-Fixed_example :
    Fixed responses "callResultCode" empty_store
      (lambda_handler bucket python hundredths created empty_store).1
others-Fixed_example =
    others-Fixed responses bucket bucket-Documented python hundredths "callResultCode"
      (refl, (refl, (refl, (refl, tt)))) created empty_store
