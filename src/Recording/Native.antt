-- ===== src/Recording/Native.antt =====
-- backend/shared/recording/connect_key.py: the key that Connect gives a recording. The class `\d` of
-- code points is a parameter. The prefix `.+?` has no newline, and `$` also matches before a newline.
use Prim.Native.Char.{Char, code}
use emergency_contact.Prelude.{
  ℕ, String, Bool, true, false, not, ◌&&◌, ◌||◌, ◌==◌, Option, none, some, List, [], ◌∷◌, str_eq,
  if◌then◌else◌,
}
use emergency_contact.Python.Values.{Value, str}
use emergency_contact.Recording.Parsing.{split_slash, before_end, prepend, count, all_digits}

pub record ConnectNativeKeyInfo : Type 0 where
  pub contact_id : String
  pub yyyy : String
  pub mm : String
  pub dd : String
  pub timestamp : String

unfoldable pub has_newline : String → Bool
has_newline String.[] = false
has_newline (String.◌∷◌ c s) = if code c == 10 then true else has_newline s

-- The text after a prefix.
unfoldable pub after_prefix : String → String → Option String
after_prefix String.[] s = some s
after_prefix (String.◌∷◌ c p) String.[] = none
after_prefix (String.◌∷◌ c p) (String.◌∷◌ d s) = if code c == code d then after_prefix p s else none

unfoldable pub is_given : Option String → Bool
is_given none = false
is_given (some s) = not (str_eq s "")

-- (?:_[^/]+)?\.wav$, of a text without slashes
unfoldable pub is_ending : Option String → Bool
unfolding is_given
is_ending none = false
is_ending (some s) =
    str_eq s ".wav"
    || str_eq s ".wav\n"
    || (elim (after_prefix "_" s) [ none ↦ false | some r ↦ is_given (before_end ".wav" r) ])

-- The shortest text before `_UTC` and an ending.
unfoldable pub shortest : String → Option String
shortest String.[] = none
shortest (String.◌∷◌ c s) =
    let rest = prepend c (shortest s) in
    if is_ending (after_prefix "_UTC" s) then some (String.◌∷◌ c "") else rest

unfoldable pub cons_first : Char → Option (String × String) → Option (String × String)
cons_first c none = none
cons_first c (some (a, b)) = some (String.◌∷◌ c a, b)

-- The texts before and after the first underscore.
unfoldable pub split_underscore : String → Option (String × String)
unfolding cons_first
split_underscore String.[] = none
split_underscore (String.◌∷◌ c s) =
    let rest = cons_first c (split_underscore s) in
    if code c == code "_" then some ("", s) else rest

unfoldable pub native_info :
    String → String → String → String → Option String → Option ConnectNativeKeyInfo
native_info contact_id y m d none = none
native_info contact_id y m d (some timestamp) =
    some (record { contact_id = contact_id; yyyy = y; mm = m; dd = d; timestamp = timestamp })

unfoldable pub native_file :
    String → String → String → Option (String × String) → Option ConnectNativeKeyInfo
native_file y m d none = none
native_file y m d (some (contact_id, rest)) =
    if str_eq contact_id "" then none else native_info contact_id y m d (shortest rest)

module _ (is_decimal : ℕ → Bool) where
  -- \d{n}
  unfoldable pub is_digits : ℕ → String → Bool
  is_digits n s = all_digits is_decimal s && count s == n

  unfoldable pub native_last :
      String → String → String → String → String → Option ConnectNativeKeyInfo
  native_last folder y m d file =
      if str_eq folder "CallRecordings" && is_digits 4 y && is_digits 2 m && is_digits 2 d
      then native_file y m d (split_underscore file)
      else none

  -- The last five segments, behind a prefix that is not empty. The flag says that a segment was passed.
  unfoldable pub native_groups : Bool → List String → Option ConnectNativeKeyInfo
  native_groups passed (p ∷ folder ∷ y ∷ m ∷ d ∷ file ∷ []) =
      if has_newline p || (not passed && str_eq p "") then none else native_last folder y m d file
  native_groups passed (p ∷ ps) =
      let rest = native_groups true ps in if has_newline p then none else rest
  native_groups passed [] = none

  unfoldable pub parse_connect_native_key : Value → Option ConnectNativeKeyInfo
  parse_connect_native_key (str key) =
      if str_eq key "" then none else native_groups false (split_slash key)
  parse_connect_native_key _ = none
