-- ===== src/Recording/Segments.antt =====
-- The texts between the slashes of a key, and the text before a suffix.
use Prim.Native.Char.{Char, code}
use Prim.Native.String.{◌++◌}
use text.Mathlib.TextLemmas.{cons-append, nil-append, append_cancel_right, cons≢nil}
use emergency_contact.Prelude.{
  String, ◌≡◌, refl, sym, subst, ◌∙◌, inl, inr, false, ◌==◌, some, List, [], ◌∷◌, str_eq,
  Bool-cases, Option-cases, eq_refl,
}
use emergency_contact.Python.Texts.{str_eq_of_ne}
use emergency_contact.Recording.Keys.{has_slash}
use emergency_contact.Recording.Parsing.{
  cons_head, split_slash, prepend, or_else, before, before_end,
}

-- No text of the list has a slash.
abbrev pub AllSegments : List String → Type 0
AllSegments [] = Unit
AllSegments (w ∷ ws) = (has_slash w ≡ false) × AllSegments ws

cons_head-AllSegments :
    (c : Char) (ws : List String)
    → (code c == code "/") ≡ false
    → AllSegments ws
    → AllSegments (cons_head c ws)
unfolding cons_head has_slash
cons_head-AllSegments c [] h a = (rw h, tt)
cons_head-AllSegments c (w ∷ ws) h a = (rw (h, a.0), a.1)

pub split_slash-AllSegments : (s : String) → AllSegments (split_slash s)
unfolding split_slash has_slash
split_slash-AllSegments String.[] = (refl, tt)
split_slash-AllSegments (String.◌∷◌ c s) = elim (Bool-cases (code c == code "/")) [
  | inl e ↦ rw e (refl, split_slash-AllSegments s)
  | inr e ↦ rw e (cons_head-AllSegments c _ e (split_slash-AllSegments s))
]

-- The split of a segment, a slash and more.
pub split_slash-append :
    (a b : String) → has_slash a ≡ false → split_slash (a ++ ("/" ++ b)) ≡ a ∷ split_slash b
unfolding split_slash has_slash cons_head
split_slash-append String.[] b h = rw (nil-append, cons-append, nil-append)
split_slash-append (String.◌∷◌ c s) b h = elim (Bool-cases (code c == code "/")) [
  | inl e ↦ let never = rw e at h in cc
  | inr e ↦ let rest = split_slash-append s b (rw e at h) in rw (cons-append, e, rest)
]

pub split_slash-segment : (a : String) → has_slash a ≡ false → split_slash a ≡ a ∷ []
unfolding split_slash has_slash cons_head
split_slash-segment String.[] h = refl
split_slash-segment (String.◌∷◌ c s) h = elim (Bool-cases (code c == code "/")) [
  | inl e ↦ let never = rw e at h in cc
  | inr e ↦ let rest = split_slash-segment s (rw e at h) in rw (e, rest)
]

before_self : (suffix : String) → before suffix suffix ≡ some ""
unfolding before
before_self String.[] = refl
before_self (String.◌∷◌ c s) = rw eq_refl

longer : (c : Char) (s suffix : String) → str_eq (String.◌∷◌ c (s ++ suffix)) suffix ≡ false
longer c s suffix = str_eq_of_ne _ suffix (λ e.
    let same = cons-append c s suffix ∙ e ∙ sym (nil-append suffix) in
    cons≢nil (append_cancel_right (String.◌∷◌ c s) "" suffix same))

pub before-append : (a suffix : String) → before suffix (a ++ suffix) ≡ some a
unfolding before prepend
before-append String.[] suffix = rw nil-append (before_self suffix)
before-append (String.◌∷◌ c s) suffix =
    let rest = before-append s suffix in rw (cons-append, longer c s suffix, rest)

pub before_end-append : (a ext : String) → before_end ext (a ++ ext) ≡ some a
unfolding before_end or_else
before_end-append a ext = rw (before-append a ext)

pub some_injective : {A : Type 0} {a b : A} → some a ≡ some b → a ≡ b
some_injective h = cc

pub before-segment :
    (suffix s r : String) → before suffix s ≡ some r → has_slash s ≡ false → has_slash r ≡ false
unfolding before prepend has_slash
before-segment suffix String.[] r h n = elim (Bool-cases (str_eq "" suffix)) [
  | inl e ↦ subst (λ x. has_slash x ≡ false) (some_injective (rw e at h)) refl
  | inr e ↦ let never = rw e at h in cc
]
before-segment suffix (String.◌∷◌ c s) r h n = elim (Bool-cases (str_eq (String.◌∷◌ c s) suffix)) [
  | inl e ↦ subst (λ x. has_slash x ≡ false) (some_injective (rw e at h)) refl
  | inr e ↦ elim (Option-cases (before suffix s)) [
    | inl m ↦ let never = rw (e, m) at h in cc
    | inr m ↦ elim (Bool-cases (code c == code "/")) [
      | inl d ↦ let never = rw d at n in cc
      | inr d ↦
          let rest = before-segment suffix s m.0 m.1 (rw d at n) in
          let whole : has_slash (String.◌∷◌ c m.0) ≡ false = rw (d, rest) in
          subst (λ x. has_slash x ≡ false) (some_injective (rw (e, m.1) at h)) whole
    ]
  ]
]

pub has_slash-append :
    (a b : String) → has_slash a ≡ false → has_slash b ≡ false → has_slash (a ++ b) ≡ false
unfolding has_slash
has_slash-append String.[] b h k = rw nil-append k
has_slash-append (String.◌∷◌ c s) b h k = elim (Bool-cases (code c == code "/")) [
  | inl e ↦ let never = rw e at h in cc
  | inr e ↦ let rest = has_slash-append s b (rw e at h) k in rw (cons-append, e, rest)
]

pub before_end-segment :
    (ext s r : String) → before_end ext s ≡ some r → has_slash s ≡ false → has_slash r ≡ false
unfolding before_end or_else
before_end-segment ext s r h n = elim (Option-cases (before ext s)) [
  | inl m ↦ before-segment (ext ++ "\n") s r (rw m at h) n
  | inr m ↦ before-segment ext s r (m.1 ∙ rw m.1 at h) n
]
