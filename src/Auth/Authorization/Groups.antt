-- ===== src/Auth/Authorization/Groups.antt =====
-- Which groups a token grants.
use Prim.Native.Char.{Char, code}
use Prim.Native.String.{◌++◌}
use text.Mathlib.TextLemmas.{nil-append, cons-append}
use emergency_contact.Prelude.{
  String, ◌≡◌, ◌≢◌, refl, ◌↔◌, inl, inr, Bool, true, false, ◌||◌, Option, none, some, List, [], ◌∷◌,
  arith, str_eq, eq_iff, Bool-cases,
}
use emergency_contact.Python.Values.{Value, str, list, dict, Items, nil, cons, Fields, lookup}
use emergency_contact.Python.Texts.{
  HasText, OneOf, OneOf-of_mem, mem_of_OneOf, is_space, split, split_from, flush,
}
use emergency_contact.Auth.Authorization.{
  cognito_groups_claim, texts_of, groups_of, grants, claimed, is_authorized,
}

OneOf-of_HasText : (g : String) (vs : Items) → HasText g vs → OneOf g (texts_of vs)
unfolding texts_of
OneOf-of_HasText g (cons (str s) vs) (inl e) = inl (cc e)
OneOf-of_HasText g (cons (str s) vs) (inr m) = inr (OneOf-of_HasText g vs m)
OneOf-of_HasText g (cons _ vs) (inl e) = absurd (ground arith)
OneOf-of_HasText g (cons _ vs) (inr m) = OneOf-of_HasText g vs m
OneOf-of_HasText g nil m = absurd m

HasText-of_OneOf : (g : String) (vs : Items) → OneOf g (texts_of vs) → HasText g vs
unfolding texts_of
HasText-of_OneOf g nil m = absurd m
HasText-of_OneOf g (cons (str s) vs) (inl e) = inl (cc e)
HasText-of_OneOf g (cons (str s) vs) (inr m) = inr (HasText-of_OneOf g vs m)
HasText-of_OneOf g (cons _ vs) m = inr (HasText-of_OneOf g vs m)

-- What a claim has to hold: the group among its items, or among its words.
abbrev pub Grants : String → Option Value → Type 0
Grants g (some (list vs)) = HasText g vs
Grants g (some (str raw)) = OneOf g (split raw)
Grants g _ = ⊥

granted : (g : String) (o : Option Value) → Grants g o → grants (claimed o) g ≡ true
unfolding groups_of grants claimed
granted g (some (list vs)) h = mem_of_OneOf g (texts_of vs) (OneOf-of_HasText g vs h)
granted g (some (str raw)) h = mem_of_OneOf g (split raw) h
granted g _ h = absurd h

only_granted : (g : String) (o : Option Value) → grants (claimed o) g ≡ true → Grants g o
unfolding groups_of grants claimed
only_granted g none h = cc
only_granted g (some (list vs)) h = HasText-of_OneOf g vs (OneOf-of_mem g (texts_of vs) h)
only_granted g (some (str raw)) h = OneOf-of_mem g (split raw) h
only_granted g (some _) h = absurd (ground arith)

-- On claims that are a dict and a group that is a text, access is granted exactly when the group is
-- not empty and the token's claim holds it: as an item of its list, or as a word of its text.
pub is_authorized_iff :
    (claims : Fields) (g : String)
    → (is_authorized (dict claims) (str g) ≡ true)
      ↔ ((g ≢ "") × Grants g (lookup cognito_groups_claim claims))
unfolding is_authorized
is_authorized_iff claims g = elim (Bool-cases (str_eq g "")) [
  | inl e ↦ rw e (λ h. cc, λ h. absurd (h.0 ((eq_iff g "").0 e)))
  | inr e ↦ rw e (
    λ h. ((λ q. cc (e, (eq_iff g "").1 q)), only_granted g (lookup cognito_groups_claim claims) h),
    λ h. granted g (lookup cognito_groups_claim claims) h.1,
  )
]

-- A character of the text is white space.
pub has_space : String → Bool
has_space String.[] = false
has_space (String.◌∷◌ c s) = is_space (code c) || has_space s

has_space_snoc :
    (c : Char) (s : String)
    → has_space s ≡ false
    → is_space (code c) ≡ false
    → has_space (s ++ String.◌∷◌ c "") ≡ false
unfolding has_space
has_space_snoc c String.[] h k = rw nil-append (rw k)
has_space_snoc c (String.◌∷◌ d s) h k = rw cons-append (elim (Bool-cases (is_space (code d))) [
  | inl e ↦ cc (rw e at h)
  | inr e ↦ rw e (has_space_snoc c s (rw e at h) k)
])

-- Every text of the list is a word.
abbrev AllWords : List String → Type 0
AllWords [] = Unit
AllWords (w ∷ ws) = (has_space w ≡ false) × AllWords ws

flush-AllWords :
    (w : String) (ws : List String) → has_space w ≡ false → AllWords ws → AllWords (flush w ws)
unfolding flush
flush-AllWords String.[] ws h k = k
flush-AllWords (String.◌∷◌ c w) ws h k = (h, k)

split_from-AllWords : (w s : String) → has_space w ≡ false → AllWords (split_from w s)
unfolding split_from has_space
split_from-AllWords w String.[] h = flush-AllWords w [] h tt
split_from-AllWords w (String.◌∷◌ c s) h = elim (Bool-cases (is_space (code c))) [
  | inl e ↦ rw e (flush-AllWords w _ h (split_from-AllWords "" s refl))
  | inr e ↦ rw e (split_from-AllWords _ s (has_space_snoc c w h e))
]

word_of_AllWords : (g : String) (ws : List String) → AllWords ws → OneOf g ws → has_space g ≡ false
word_of_AllWords g [] a m = absurd m
word_of_AllWords g (w ∷ ws) a (inl e) = rw e a.0
word_of_AllWords g (w ∷ ws) a (inr m) = word_of_AllWords g ws a.1 m

-- A claim that is a text never grants a group whose name holds white space.
pub text_claim_grants_words :
    (claims : Fields) (g raw : String)
    → lookup cognito_groups_claim claims ≡ some (str raw)
    → is_authorized (dict claims) (str g) ≡ true
    → has_space g ≡ false
unfolding split has_space
text_claim_grants_words claims g raw e h =
    let m : Grants g (some (str raw)) = rw e at ((is_authorized_iff claims g).0 h).1 in
    word_of_AllWords g (split raw) (split_from-AllWords "" raw refl) m
