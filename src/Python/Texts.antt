-- ===== src/Python/Texts.antt =====
-- Membership of a text in a set of texts, and the code points of a text.
use Prim.Native.Char.{code}
use Prim.Native.String.{◌++◌}
use emergency_contact.Prelude.{
  ℕ, zero, suc, String, ◌≡◌, ◌≢◌, sym, subst, ◌⊎◌, inl, inr, Bool, true, false, ◌&&◌, ◌||◌, List,
  [], ◌∷◌, arith, eq_iff, eq_refl, Bool-cases, str_eq, leb, ◌==◌, if◌then◌else◌,
}
use emergency_contact.Python.Values.{Items, nil, cons, str, mem}

abbrev pub codes : String → List ℕ
codes String.[] = []
codes (String.◌∷◌ c s) = code c ∷ codes s

pub text_ne : (s t : String) → str_eq s t ≡ false → s ≢ t
text_ne s t h e = let h' = rw (e, eq_refl) at h in cc

pub str_eq_of_ne : (s t : String) → s ≢ t → str_eq s t ≡ false
str_eq_of_ne s t h = elim (Bool-cases (str_eq s t)) [
  | inl e ↦ absurd (h ((eq_iff s t).0 e))
  | inr e ↦ e
]

-- `s` is one of the texts.
abbrev pub OneOf : String → List String → Type 0
OneOf s [] = ⊥
OneOf s (t ∷ ts) = (s ≡ t) ⊎ OneOf s ts

pub OneOf-of_mem : (s : String) (ts : List String) → mem s ts ≡ true → OneOf s ts
unfolding mem
OneOf-of_mem s [] h = cc
OneOf-of_mem s (t ∷ ts) h = elim (Bool-cases (str_eq s t)) [
  | inl e ↦ inl ((eq_iff s t).0 e)
  | inr e ↦ inr (OneOf-of_mem s ts (rw e at h))
]

pub mem_of_OneOf : (s : String) (ts : List String) → OneOf s ts → mem s ts ≡ true
unfolding mem
mem_of_OneOf s [] h = absurd h
mem_of_OneOf s (t ∷ ts) (inl e) = rw (e, eq_refl)
mem_of_OneOf s (t ∷ ts) (inr h) = ground (arith, mem_of_OneOf s ts h)

-- One of the items is the text.
abbrev pub HasText : String → Items → Type 0
HasText s nil = ⊥
HasText s (cons v vs) = (v ≡ str s) ⊎ HasText s vs

-- `P` holds at each of the texts.
abbrev pub Each {ℓ} : (String → Type ℓ) → List String → Type ℓ
Each P [] = Unit
Each P (t ∷ ts) = P t × Each P ts

each_OneOf {ℓ} :
    (P : String → Type ℓ) (ts : List String) → Each P ts → (s : String) → OneOf s ts → P s
each_OneOf P [] h s m = absurd m
each_OneOf P (t ∷ ts) h s (inl e) = subst P (sym e) h.0
each_OneOf P (t ∷ ts) h s (inr m) = each_OneOf P ts h.1 s m

-- To prove a statement about a member of a vocabulary, prove it at each member.
pub each_mem {ℓ} :
    (P : String → Type ℓ) (ts : List String) → Each P ts → (s : String) → mem s ts ≡ true → P s
each_mem P ts h s m = each_OneOf P ts h s (OneOf-of_mem s ts m)

-- str.isspace, of one code point
unfoldable pub is_space : ℕ → Bool
is_space c =
    leb 9 c && leb c 13
    || leb 28 c && leb c 32
    || c == 133
    || c == 160
    || c == 5760
    || leb 8192 c && leb c 8202
    || c == 8232
    || c == 8233
    || c == 8239
    || c == 8287
    || c == 12288

-- s.split(): the words between runs of white space. `word` is the word that is being read.
unfoldable pub flush : String → List String → List String
flush String.[] ws = ws
flush (String.◌∷◌ c s) ws = (String.◌∷◌ c s) ∷ ws

unfoldable pub split_from : String → String → List String
unfolding is_space flush
split_from word String.[] = flush word []
split_from word (String.◌∷◌ c s) =
    let next = split_from "" s in
    let more = split_from (word ++ String.◌∷◌ c "") s in
    if is_space (code c) then flush word next else more

unfoldable pub split : String → List String
unfolding split_from
split s = split_from "" s

-- text[:n]
unfoldable pub take_chars : ℕ → String → String
take_chars zero s = ""
take_chars (suc n) String.[] = ""
take_chars (suc n) (String.◌∷◌ c s) = String.◌∷◌ c (take_chars n s)
