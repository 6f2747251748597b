-- ===== src/Connect/Mock.antt =====
-- backend/shared/connect/mock.py: the answer that stands in for a call. The first byte of
-- `hashlib.sha256(employee_id.encode("utf-8")).digest()` is a parameter.
pub mod Answers
use Prim.Native.Char.{code}
use emergency_contact.Prelude.{
  ℕ, ◌-◌, ◌%◌, String, Bool, true, false, ◌&&◌, Option, none, some, leb, if◌then◌else◌, List, [],
  ◌∷◌, get_elem?,
}
use emergency_contact.Python.Results.{Result, ok, err, value_error, key_error}
use emergency_contact.Python.Values.{Value, str}

-- _DIGIT_TO_MOCK, whose keys are the positions in the list.
abbrev pub digit_to_mock : List (String × Option String)
digit_to_mock =
    ("RECORDED", some "無事です")
    ∷ ("RECORDED", some "大丈夫です")
    ∷ ("RECORDED", some "無事です")
    ∷ ("RECORDED", some "怪我をしました")
    ∷ ("RECORDED", some "痛いです")
    ∷ ("RECORDED", some "動けません")
    ∷ ("RECORDED", some "出社不可です")
    ∷ ("NO_ANSWER", none)
    ∷ ("BUSY", none)
    ∷ ("RECORDED", some "あいうえお")
    ∷ []

-- d[k], of what the lookup gives
unfoldable pub require_key : Option (String × Option String) → Result (String × Option String)
require_key (some answer) = ok answer
require_key none = err key_error

abbrev pub mock_call_result_codes : List String
mock_call_result_codes = "RECORDED" ∷ "NO_ANSWER" ∷ "BUSY" ∷ []

abbrev pub no_transcript_codes : List String
no_transcript_codes = "NO_ANSWER" ∷ "BUSY" ∷ []

-- ord(text[-1]); the text is not empty.
unfoldable pub last_code : String → ℕ
last_code String.[] = 0
last_code (String.◌∷◌ c String.[]) = code c
last_code (String.◌∷◌ c (String.◌∷◌ d s)) = last_code (String.◌∷◌ d s)

-- last_char.isascii() and last_char.isdigit()
unfoldable pub is_ascii_digit : ℕ → Bool
is_ascii_digit c = leb 48 c && leb c 57

module _ (first_byte : String → ℕ) where
  unfoldable pub mock_digit : String → ℕ
  unfolding last_code is_ascii_digit
  mock_digit employee_id =
      let c = last_code employee_id in
      if is_ascii_digit c then c - 48 else first_byte employee_id % 10

  unfoldable pub derive_mock_response : Value → Result (String × Option String)
  derive_mock_response (str String.[]) = err value_error
  derive_mock_response (str (String.◌∷◌ c s)) =
      require_key (get_elem? digit_to_mock (mock_digit (String.◌∷◌ c s)))
  derive_mock_response _ = err value_error
