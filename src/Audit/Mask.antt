-- ===== src/Audit/Mask.antt =====
-- backend/shared/audit/mask.py: the masking of a telephone number. A text is the list of its code
-- points: `*` is 42 and `+` is 43.
pub mod Hidden
use emergency_contact.Prelude.{
  ℕ, ◌-◌, List, [], ◌∷◌, ◌++◌, leb, ◌==◌, if◌then◌else◌, length, replicate, drop,
}

-- s[-4:], where s has four characters or more
pub last_four : List ℕ → List ℕ
last_four s = drop (length s - 4) s

unfoldable pub mask_phone : List ℕ → List ℕ
unfolding last_four
mask_phone [] = []
mask_phone (c ∷ body) =
    if c == 43
    then if leb (length body) 4
      then c ∷ body
      else 43 ∷ replicate (length body - 4) 42 ++ last_four body
    else if leb (length (c ∷ body)) 4
    then c ∷ body
    else replicate (length (c ∷ body) - 4) 42 ++ last_four (c ∷ body)
