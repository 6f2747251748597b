-- ===== src/Keyword/Transcript.antt =====
-- backend/shared/keyword/transcript.py: the text of a transcript and the mean of its confidences. The
-- floats are a parameter.
use emergency_contact.Prelude.{String, Bool, List, [], ◌∷◌, if◌then◌else◌}
use emergency_contact.Python.Results.{Result, ok, err, type_error, value_error, ◌>>=◌}
use emergency_contact.Python.Values.{
  Value, null, str, list, dict, Items, nil, cons, Fields, get, eq_text,
}

-- `float`, the test 0.0 <= x <= 1.0, the mean of a list that is not empty, 0.0, and `Decimal(str(x))`.
pub record Floats (F : Type 0) : Type 0 where
  pub float : Value → Result F
  pub is_unit : F → Bool
  pub mean : List F → F
  pub zero_float : F
  pub to_decimal : F → Value

unfoldable pub require_dict : Value → Result Fields
require_dict (dict d) = ok d
require_dict _ = err value_error

unfoldable pub require_text : Value → Result String
require_text (str s) = ok s
require_text _ = err value_error

-- The first element of a list that is not empty.
unfoldable pub require_first : Value → Result Value
require_first (list (cons v vs)) = ok v
require_first _ = err value_error

module _ {F : Type 0} (fl : Floats F) where
  -- A value that is no number is passed over, and so is one outside the unit interval.
  unfoldable pub add_float : Result F → List F → Result (List F)
  add_float (ok conf) rest = ok (if fl.is_unit conf then conf ∷ rest else rest)
  add_float (err type_error) rest = ok rest
  add_float (err value_error) rest = ok rest
  add_float (err e) rest = err e

  unfoldable pub add_confidence : Value → List F → Result (List F)
  add_confidence null rest = ok rest
  add_confidence conf_raw rest = add_float (fl.float conf_raw) rest

  unfoldable pub add_alternative : Value → List F → Result (List F)
  add_alternative (list (cons (dict first_alt) vs)) rest =
      add_confidence (get "confidence" first_alt) rest
  add_alternative _ rest = ok rest

  unfoldable pub add_item : Value → List F → Result (List F)
  add_item (dict item) rest =
      if eq_text (get "type" item) "pronunciation"
      then add_alternative (get "alternatives" item) rest
      else ok rest
  add_item _ rest = ok rest

  unfoldable pub iter_pronunciation_confidences : Items → Result (List F)
  iter_pronunciation_confidences nil = ok []
  iter_pronunciation_confidences (cons item items) = do
    rest ← iter_pronunciation_confidences items
    add_item item rest

  unfoldable pub mean_or_zero : List F → F
  mean_or_zero [] = fl.zero_float
  mean_or_zero (c ∷ cs) = fl.mean (c ∷ cs)

  unfoldable pub average : Value → Result F
  average (list items) = do
    confidences ← iter_pronunciation_confidences items
    ok (mean_or_zero confidences)
  average _ = ok fl.zero_float

  unfoldable pub extract_transcript_payload : Value → Result (String × F)
  extract_transcript_payload body = do
    whole ← require_dict body
    results ← require_dict (get "results" whole)
    first ← require_first (get "transcripts" results)
    transcript ← require_dict first
    text ← require_text (get "transcript" transcript)
    avg ← average (get "items" results)
    ok (text, avg)
