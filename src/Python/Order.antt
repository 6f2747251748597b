-- ===== src/Python/Order.antt =====
-- The order of Python's texts: lexicographic, by code points.
use Prim.Native.Char.{Char}
use mathlib.Core.Path.{ap₂}
use mathlib.Core.List.{cons-eq-cons}
use text.Mathlib.TextEquality.{Char-path}
use emergency_contact.Prelude.{
  ℕ, String, ◌≡◌, refl, Bool, true, false, List, [], ◌∷◌, arith, ltb, ◌==◌, if◌then◌else◌,
}
use emergency_contact.Python.Texts.{codes}

pub lex_lt : List ℕ → List ℕ → Bool
lex_lt [] [] = false
lex_lt [] (y ∷ ys) = true
lex_lt (x ∷ xs) [] = false
lex_lt (x ∷ xs) (y ∷ ys) = if x == y then lex_lt xs ys else ltb x y

-- s < t
unfoldable pub text_lt : String → String → Bool
unfolding lex_lt
text_lt s t = lex_lt (codes s) (codes t)

lex_lt_irrefl : (xs : List ℕ) → lex_lt xs xs ≡ false
unfolding lex_lt
lex_lt_irrefl [] = refl
lex_lt_irrefl (x ∷ xs) = ground (arith, lex_lt_irrefl xs)

lex_lt_asymm : (xs ys : List ℕ) → lex_lt xs ys ≡ true → lex_lt ys xs ≡ false
unfolding lex_lt
lex_lt_asymm [] [] h = refl
lex_lt_asymm [] (y ∷ ys) h = refl
lex_lt_asymm (x ∷ xs) [] h = cc
lex_lt_asymm (x ∷ xs) (y ∷ ys) h = ground (arith, lex_lt_asymm xs ys)

lex_le_trans :
    (xs ys zs : List ℕ) → lex_lt xs ys ≡ false → lex_lt ys zs ≡ false → lex_lt xs zs ≡ false
unfolding lex_lt
lex_le_trans [] [] [] h k = refl
lex_le_trans [] [] (z ∷ zs) h k = cc
lex_le_trans [] (y ∷ ys) zs h k = cc
lex_le_trans (x ∷ xs) ys [] h k = refl
lex_le_trans (x ∷ xs) [] (z ∷ zs) h k = cc
lex_le_trans (x ∷ xs) (y ∷ ys) (z ∷ zs) h k = ground (arith, lex_le_trans xs ys zs)

lex_antisymm : (xs ys : List ℕ) → lex_lt xs ys ≡ false → lex_lt ys xs ≡ false → xs ≡ ys
unfolding lex_lt
lex_antisymm [] [] h k = refl
lex_antisymm [] (y ∷ ys) h k = cc
lex_antisymm (x ∷ xs) [] h k = cc
lex_antisymm (x ∷ xs) (y ∷ ys) h k = ground (arith, lex_antisymm xs ys)

pub text_lt_irrefl : (s : String) → text_lt s s ≡ false
unfolding text_lt
text_lt_irrefl s = lex_lt_irrefl (codes s)

pub text_lt_asymm : (s t : String) → text_lt s t ≡ true → text_lt t s ≡ false
unfolding text_lt
text_lt_asymm s t = lex_lt_asymm (codes s) (codes t)

-- `not <` is transitive.
pub text_ge_trans :
    (s t u : String) → text_lt s t ≡ false → text_lt t u ≡ false → text_lt s u ≡ false
unfolding text_lt
text_ge_trans s t u = lex_le_trans (codes s) (codes t) (codes u)

codes_injective : (s t : String) → codes s ≡ codes t → s ≡ t
codes_injective String.[] String.[] h = refl
codes_injective String.[] (String.◌∷◌ d t) h = cc
codes_injective (String.◌∷◌ c s) String.[] h = cc
codes_injective (String.◌∷◌ c s) (String.◌∷◌ d t) h =
    ap₂ (λ (x : Char) (y : String). String.◌∷◌ x y) (Char-path c d (cons-eq-cons.0 h).0)
      (codes_injective s t (cons-eq-cons.0 h).1)

-- Two texts of which neither comes first are equal.
pub text_antisymm : (s t : String) → text_lt s t ≡ false → text_lt t s ≡ false → s ≡ t
unfolding text_lt
text_antisymm s t h k = codes_injective s t (lex_antisymm (codes s) (codes t) h k)
