-- ===== src/Audit/Mask/Hidden.antt =====
-- What a masked number still shows.
use emergency_contact.Prelude.{
  ℕ, zero, suc, ◌-◌, ◌+◌, ◌≡◌, ◌≤◌, refl, Bool, false, ◌&&◌, not, some, List, [], ◌∷◌, ◌++◌, arith,
  ltb, ◌==◌, if◌then◌else◌, length, get_elem?, replicate, drop, length-append, length-replicate,
  length-drop,
}
use emergency_contact.Audit.Mask.{last_four, mask_phone}

is_plus : List ℕ → Bool
is_plus [] = false
is_plus (c ∷ s) = c == 43

-- Position `i` is masked: it is not among the last four, nor is it a leading plus.
pub is_hidden : List ℕ → ℕ → Bool
unfolding is_plus
is_hidden s i = ltb (i + 4) (length s) && not (i == 0 && is_plus s)

-- n characters before the rest of the text, replaced
get_elem?-starred :
    (n i : ℕ) (s : List ℕ)
    → n ≤ length s
    → get_elem? (replicate n 42 ++ drop n s) i ≡ (if ltb i n then some 42 else get_elem? s i)
get_elem?-starred zero i s h = ground arith
get_elem?-starred (suc n) i [] h = absurd (ground arith)
get_elem?-starred (suc n) zero (x ∷ s) h = ground arith
get_elem?-starred (suc n) (suc i) (x ∷ s) h = ground (arith, get_elem?-starred n i s)

stars :
    (s : List ℕ) (i : ℕ)
    → get_elem? (replicate (length s - 4) 42 ++ last_four s) i
      ≡ (if ltb (i + 4) (length s) then some 42 else get_elem? s i)
unfolding last_four
stars s i = ground (arith, get_elem?-starred (length s - 4) i s (omega arith))

-- The masked number has a star at each hidden position, and the number's own character at every
-- other: a leading plus and the last four characters stay, and the length too.
pub mask_phone_chars :
    (s : List ℕ) (i : ℕ)
    → get_elem? (mask_phone s) i ≡ (if is_hidden s i then some 42 else get_elem? s i)
unfolding mask_phone is_hidden is_plus
mask_phone_chars [] i = ground arith
mask_phone_chars (c ∷ body) zero = ground (arith, stars (c ∷ body) 0)
mask_phone_chars (c ∷ body) (suc i) = ground (arith, stars (c ∷ body) (suc i), stars body i)

last_four-long : (s : List ℕ) → 4 ≤ length s → length (last_four s) ≡ 4
unfolding last_four
last_four-long s h = omega (arith, length-drop (length s - 4) s)

starred-length :
    (s : List ℕ) → 4 ≤ length s → length (replicate (length s - 4) 42 ++ last_four s) ≡ length s
starred-length s h = omega (
  arith,
  length-append (replicate {A = ℕ} (length s - 4) 42) (last_four s),
  length-replicate {A = ℕ} (length s - 4) 42,
  last_four-long s h,
)

pub length-mask_phone : (s : List ℕ) → length (mask_phone s) ≡ length s
unfolding mask_phone
length-mask_phone [] = refl
length-mask_phone (c ∷ body) = ground (arith, starred-length body, starred-length (c ∷ body))
