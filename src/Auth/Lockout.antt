-- ===== src/Auth/Lockout.antt =====
-- backend/shared/auth/lockout.py: an account is locked after too many recent failures.
use emergency_contact.Prelude.{
  ℕ, zero, suc, ◌+◌, ◌-◌, ◌≤◌, ◌≡◌, refl, ◌↔◌, Bool, true, false, ◌&&◌, List, [], ◌∷◌, arith,
  length, drop, if◌then◌else◌, Bool-cases, inl, inr, ltb, sym, ap, ◌∙◌,
}
use emergency_contact.Prelude.Int.{ℤ, pos, negsuc, ◌-ℤ◌, ltb_ℤ}
use mathlib.Core.List.{Permᴰ}
use emergency_contact.Python.Sorting.{
  sort, IsSorted, NoneBefore, insert, sort-IsSorted, sort-perm_eq, length-sort,
}

abbrev pub default_threshold : ℤ
default_threshold = pos 5

abbrev pub default_window_sec : ℤ
default_window_sec = pos 1800

-- sorted(failed_ats)
unfoldable pub sorted : List ℤ → List ℤ
unfolding sort
sorted = sort ltb_ℤ

-- xs[-threshold:], with Python's reading of a zero or positive start
unfoldable pub last_items : ℤ → List ℤ → List ℤ
last_items (pos zero) xs = xs
last_items (pos (suc n)) xs = drop (length xs - suc n) xs
last_items (negsuc n) xs = drop (suc n) xs

-- all(t > cutoff for t in tail)
pub all_newer : ℤ → List ℤ → Bool
all_newer cutoff [] = true
all_newer cutoff (t ∷ ts) = ltb_ℤ cutoff t && all_newer cutoff ts

unfoldable pub is_locked : List ℤ → ℤ → ℤ → ℤ → Bool
unfolding sorted last_items ◌-ℤ◌
is_locked failed_ats now_epoch_sec threshold window_sec =
    if ltb_ℤ (pos (length failed_ats)) threshold
    then false
    else all_newer (now_epoch_sec -ℤ window_sec) (last_items threshold (sorted failed_ats))

-- How many failures lie strictly after the cutoff.
unfoldable pub count_newer : ℤ → List ℤ → ℕ
count_newer cutoff [] = 0
count_newer cutoff (t ∷ ts) =
    if ltb_ℤ cutoff t then count_newer cutoff ts + 1 else count_newer cutoff ts

asymm : (x y : ℤ) → ltb_ℤ x y ≡ true → ltb_ℤ y x ≡ false
asymm (pos m) (pos n) h = ground arith
asymm (pos m) (negsuc n) h = cc
asymm (negsuc m) (pos n) h = refl
asymm (negsuc m) (negsuc n) h = ground arith

ge_trans : (x y z : ℤ) → ltb_ℤ x y ≡ false → ltb_ℤ y z ≡ false → ltb_ℤ x z ≡ false
ge_trans (pos a) (pos b) (pos c) h k = ground arith
ge_trans (pos a) (negsuc b) (pos c) h k = cc
ge_trans (pos a) y (negsuc c) h k = refl
ge_trans (negsuc a) (pos b) z h k = cc
ge_trans (negsuc a) (negsuc b) (pos c) h k = cc
ge_trans (negsuc a) (negsuc b) (negsuc c) h k = ground arith

count-insert :
    (cutoff t : ℤ) (ts : List ℤ)
    → count_newer cutoff (insert ltb_ℤ t ts) ≡ count_newer cutoff (t ∷ ts)
unfolding count_newer insert
count-insert cutoff t [] = refl
count-insert cutoff t (u ∷ us) = ground (arith, count-insert cutoff t us)

count-sorted : (cutoff : ℤ) (ts : List ℤ) → count_newer cutoff (sorted ts) ≡ count_newer cutoff ts
unfolding sorted count_newer
count-sorted cutoff [] = refl
count-sorted cutoff (t ∷ ts) =
    ground (arith, count-insert cutoff t (sort ltb_ℤ ts), count-sorted cutoff ts)

count-le-length : (cutoff : ℤ) (ts : List ℤ) → count_newer cutoff ts ≤ length ts
unfolding count_newer
count-le-length cutoff [] = omega arith
count-le-length cutoff (t ∷ ts) = ground (arith, count-le-length cutoff ts)

newer_trans : (c t u : ℤ) → ltb_ℤ c t ≡ true → ltb_ℤ u t ≡ false → ltb_ℤ c u ≡ true
newer_trans (pos c) (pos t) (pos u) h k = ground arith
newer_trans c (pos t) (negsuc u) h k = cc
newer_trans (pos c) (negsuc t) u h k = cc
newer_trans (negsuc c) t (pos u) h k = refl
newer_trans (negsuc c) (negsuc t) (negsuc u) h k = ground arith

-- What stands behind a newer failure in the sorted list is newer too.
newer_behind :
    (cutoff t : ℤ) (ts : List ℤ)
    → ltb_ℤ cutoff t ≡ true
    → NoneBefore ltb_ℤ t ts
    → (all_newer cutoff ts ≡ true) × (count_newer cutoff ts ≡ length ts)
unfolding all_newer count_newer
newer_behind cutoff t [] h s = (refl, refl)
newer_behind cutoff t (u ∷ us) h s =
    let (a, c) = newer_behind cutoff t us h s.1 in
    let e : ltb_ℤ cutoff u ≡ true = newer_trans cutoff t u h s.0 in (ground arith, ground arith)

-- The tail of a sorted list is newer exactly when it holds newer failures only.
newer_tail :
    (cutoff : ℤ) (m : ℕ) (s : List ℤ)
    → IsSorted ltb_ℤ s
    → (all_newer cutoff (drop m s) ≡ true) ↔ (length s ≤ m + count_newer cutoff s)
unfolding all_newer count_newer
newer_tail cutoff zero [] s = (λ h. omega arith, λ h. refl)
newer_tail cutoff (suc m) [] s = (λ h. omega arith, λ h. refl)
newer_tail cutoff zero (t ∷ ts) s = elim (Bool-cases (ltb_ℤ cutoff t)) [
  | inl e ↦ let (a, c) = newer_behind cutoff t ts e s.0 in (λ h. ground arith, λ h. ground arith)
  | inr e ↦ (λ h. absurd (ground arith), λ h. absurd (ground (arith, count-le-length cutoff ts)))
]
newer_tail cutoff (suc m) (t ∷ ts) s =
    let ih = newer_tail cutoff m ts s.1 in
    elim (Bool-cases (ltb_ℤ cutoff t)) [
      | inl e ↦
          let (a, c) = newer_behind cutoff t ts e s.0 in
          (λ h. ground arith, λ h. ih.1 (ground arith))
      | inr e ↦ (λ h. let k = ih.0 h in ground arith, λ h. ih.1 (ground arith))
    ]

-- For a positive threshold an account is locked exactly when at least that many failures lie
-- strictly after the start of the window, in whatever order they were recorded.
pub is_locked_iff :
    (failed_ats : List ℤ) (now window : ℤ) (n : ℕ)
    → (is_locked failed_ats now (pos (suc n)) window ≡ true)
      ↔ (suc n ≤ count_newer (now -ℤ window) failed_ats)
unfolding is_locked
is_locked_iff ts now window n =
    let sorted_ts = sort-IsSorted ltb_ℤ asymm ge_trans ts in
    let tail = newer_tail (now -ℤ window) (length (sorted ts) - suc n) (sorted ts) sorted_ts in
    let same = count-sorted (now -ℤ window) ts in
    let as_many = length-sort ltb_ℤ ts in
    let bound = count-le-length (now -ℤ window) ts in
    elim (Bool-cases (ltb (length ts) (suc n))) [
      | inl e ↦ rw e (λ h. cc, λ h. absurd (ground arith))
      | inr e ↦ rw e (λ h. let k = tail.0 h in ground arith, λ h. tail.1 (ground arith))
    ]

antisymm : (x y : ℤ) → ltb_ℤ x y ≡ false → ltb_ℤ y x ≡ false → x ≡ y
antisymm (pos m) (pos n) h k = ground arith
antisymm (pos m) (negsuc n) h k = cc
antisymm (negsuc m) (pos n) h k = cc
antisymm (negsuc m) (negsuc n) h k = ground arith

sorted-perm : {xs ys : List ℤ} → Permᴰ xs ys → sorted xs ≡ sorted ys
unfolding sorted
sorted-perm p = sort-perm_eq ltb_ℤ asymm ge_trans antisymm p

length-sorted : (xs : List ℤ) → length xs ≡ length (sorted xs)
unfolding sorted
length-sorted xs = sym (length-sort ltb_ℤ xs)

-- The order in which the failures were recorded does not matter, whatever the threshold is.
pub is_locked-perm :
    (xs ys : List ℤ) (now threshold window : ℤ)
    → Permᴰ xs ys
    → is_locked xs now threshold window ≡ is_locked ys now threshold window
unfolding is_locked
is_locked-perm xs ys now threshold window p =
    let e = sorted-perm p in
    let l : length xs ≡ length ys = length-sorted xs ∙ ap length e ∙ sym (length-sorted ys) in
    λ i.
      if ltb_ℤ (pos (l i)) threshold
      then false
      else all_newer (now -ℤ window) (last_items threshold (e i))
