-- ===== src/Examples/Moves.antt =====
-- A recording that is moved, over the objects of one bucket.
use emergency_contact.Prelude.{
  ℕ, String, ◌≡◌, refl, true, ◌&&◌, Option, none, some, [], ◌∷◌, leb, str_eq, eq_refl,
  if◌then◌else◌,
}
use emergency_contact.Prelude.Int.{pos}
use emergency_contact.Python.Results.{ok}
use emergency_contact.Python.Values.{Value, int, str, dict, Fields, end, field, get, is_truthy}
use emergency_contact.Python.Texts.{str_eq_of_ne}
use emergency_contact.Keyword.Event.{parse_event}
use emergency_contact.Keyword.Transcript.{require_dict}
use emergency_contact.Recording.Parsing.{is_number, all_digits}
use emergency_contact.Recording.Relocator.{Services, Library, lambda_handler}
use emergency_contact.Recording.Relocator.Safe.{IsStore, Safe, lambda_handler-Safe}

abbrev Objects : Type 0
Objects = String → Option ℕ

abbrev response : Fields
response =
    field "cycleId" (str "C1")
      (field "employeeId" (str "E1") (field "callAttempts" (int (pos 1)) end))

abbrev bucket : Services Objects
bucket = record {
  query_contact = λ id w. (ok (response ∷ []), w);
  copy_object = λ b source target w. (ok tt, λ k. if str_eq k target then w source else w k);
  delete_object = λ b key w. (ok tt, λ k. if str_eq k key then none else w k);
  back_off = λ i w. (ok tt, w);
}

abbrev content : Objects → Value → String → Option ℕ
content w b k = w k

bucket-IsStore : IsStore content bucket
bucket-IsStore = record {
  copies = λ b source target w h. rw eq_refl;
  copy_keeps = λ b source target w k h. let other = str_eq_of_ne k target h in rw other;
  delete_keeps = λ b k w j h. let other = str_eq_of_ne j k h in rw other;
  query_keeps = λ id w b k. refl;
  sleep_keeps = λ i w b k. refl;
}

-- `str` of an integer, of the one digit that the example has
abbrev lib : Library
lib = record {
  int_of_text = λ s. none;
  text_of = λ v. "1";
  is_decimal = λ c. leb 48 c && leb c 57;
  connect_recordings_prefix = "connect-raw/";
}

abbrev native : String
native = "connect-raw/i/CallRecordings/2026/06/25/K1_07:00_UTC.wav"

abbrev created : Value
created = dict (
    field "detail"
      (dict (
        field "bucket" (dict (field "name" (str "recordings") end))
          (field "object" (dict (field "key" (str native) end)) end)))
      end)

abbrev stored : Objects
stored k = if str_eq k native then some 7 else none

parsed : parse_event created ≡ ok (str "recordings", str native)
unfolding parse_event require_dict get is_truthy
parsed = refl

one_is_number : (n : ℕ) → is_number lib.is_decimal (lib.text_of (int (pos n))) ≡ true
unfolding is_number all_digits
one_is_number n = refl

lambda_handler-Safe_example :
    Safe content bucket bucket-IsStore lib
      (str "recordings")
      native
      stored
      (lambda_handler bucket lib created stored).1
lambda_handler-Safe_example =
    lambda_handler-Safe content bucket bucket-IsStore lib refl one_is_number created
      (str "recordings") native stored parsed
