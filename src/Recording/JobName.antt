-- ===== src/Recording/JobName.antt =====
-- backend/shared/recording/s3_keys.py: the name of a transcription job.
use Prim.Native.Char.{code}
use Prim.Native.String.{◌++◌}
use emergency_contact.Prelude.{
  ℕ, zero, suc, ◌≤◌, String, ◌≡◌, refl, subst, inl, inr, Bool, false, ◌==◌, ◌||◌, str_eq, ltb,
  if◌then◌else◌, Bool-cases, arith,
}
use emergency_contact.Python.Results.{Result, ok, err, value_error, ok_injective, ◌>>=◌, >>=-eq-ok}
use emergency_contact.Python.Values.{Value, str}
use emergency_contact.Python.Texts.{take_chars}
use emergency_contact.Recording.Parsing.{count}

abbrev pub job_name_max : ℕ
job_name_max = 200

-- [:/#]
unfoldable pub is_forbidden : ℕ → Bool
is_forbidden c = c == code ":" || c == code "/" || c == code "#"

-- re.sub("[:/#]", "-", text)
unfoldable pub sanitize : String → String
unfolding is_forbidden
sanitize String.[] = ""
sanitize (String.◌∷◌ c s) =
    let rest = sanitize s in
    if is_forbidden (code c) then String.◌∷◌ "-" rest else String.◌∷◌ c rest

unfoldable pub require_given : Value → Result String
require_given (str s) = if str_eq s "" then err value_error else ok s
require_given _ = err value_error

unfoldable pub shorten : String → String
shorten s = if ltb job_name_max (count s) then take_chars job_name_max s else s

unfoldable pub derive_transcribe_job_name : Value → Value → Result String
derive_transcribe_job_name meta_pk meta_sk = do
  pk ← require_given meta_pk
  sk ← require_given meta_sk
  ok (shorten (sanitize ("safety-confirm-" ++ (pk ++ ("-" ++ sk)))))

-- No code point of the text is one that a job's name may not have among `:`, `/` and `#`.
abbrev pub IsClean : String → Type 0
IsClean String.[] = Unit
IsClean (String.◌∷◌ c s) = (is_forbidden (code c) ≡ false) × IsClean s

sanitize-IsClean : (s : String) → IsClean (sanitize s)
unfolding sanitize is_forbidden
sanitize-IsClean String.[] = tt
sanitize-IsClean (String.◌∷◌ c s) = elim (Bool-cases (is_forbidden (code c))) [
  | inl e ↦ rw e (refl, sanitize-IsClean s)
  | inr e ↦ rw e (e, sanitize-IsClean s)
]

take_chars-IsClean : (n : ℕ) (s : String) → IsClean s → IsClean (take_chars n s)
unfolding take_chars
take_chars-IsClean zero s h = tt
take_chars-IsClean (suc n) String.[] h = tt
take_chars-IsClean (suc n) (String.◌∷◌ c s) h = (h.0, take_chars-IsClean n s h.1)

count-take_chars : (n : ℕ) (s : String) → count (take_chars n s) ≤ n
unfolding take_chars count
count-take_chars zero s = omega arith
count-take_chars (suc n) String.[] = omega arith
count-take_chars (suc n) (String.◌∷◌ c s) = omega (arith, count-take_chars n s)

shorten-bounds : (s : String) → IsClean s → IsClean (shorten s) × (count (shorten s) ≤ job_name_max)
unfolding shorten
shorten-bounds s h = elim (Bool-cases (ltb job_name_max (count s))) [
  | inl e ↦ rw e (take_chars-IsClean job_name_max s h, count-take_chars job_name_max s)
  | inr e ↦ rw e (h, ground arith)
]

-- A job's name has at most 200 code points, none of which is a colon, a slash or a number sign,
-- whatever the two keys are.
pub job_name-Bounded :
    (meta_pk meta_sk : Value) (name : String)
    → derive_transcribe_job_name meta_pk meta_sk ≡ ok name
    → IsClean name × (count name ≤ job_name_max)
unfolding derive_transcribe_job_name
job_name-Bounded meta_pk meta_sk name h =
    let first = >>=-eq-ok (require_given meta_pk) _ h in
    let second = >>=-eq-ok (require_given meta_sk) _ first.2 in
    subst (λ x. IsClean x × (count x ≤ job_name_max)) (ok_injective second.2)
      (shorten-bounds _ (sanitize-IsClean _))
