-- ===== src/Python/Sorting.antt =====
-- Python's `sorted` as a stable insertion sort by a strict test `lt`. `reverse=True` is the test with
-- its arguments exchanged: it keeps the order of equal items too.
use mathlib.Core.List.Perm
use mathlib.Core.List.{Perm, Permᴰ}
use emergency_contact.Prelude.{
  ◌≡◌, refl, ◌∙◌, Bool, true, false, List, [], ◌∷◌, arith, if◌then◌else◌, Bool-cases, inl, inr,
  length, ◌+◌,
}

module _ {ℓ} {A : Type ℓ} (lt : A → A → Bool) where
  unfoldable pub insert : A → List A → List A
  insert x [] = x ∷ []
  insert x (y ∷ ys) = if lt y x then y ∷ insert x ys else x ∷ y ∷ ys

  unfoldable pub sort : List A → List A
  unfolding insert
  sort [] = []
  sort (x ∷ xs) = insert x (sort xs)

  -- No item comes strictly before `x`.
  abbrev pub NoneBefore : A → List A → Type 0
  NoneBefore x [] = Unit
  NoneBefore x (y ∷ ys) = (lt y x ≡ false) × NoneBefore x ys

  abbrev pub IsSorted : List A → Type 0
  IsSorted [] = Unit
  IsSorted (x ∷ xs) = NoneBefore x xs × IsSorted xs

  insert-perm : (x : A) (xs : List A) → Perm (insert x xs) (x ∷ xs)
  unfolding insert
  insert-perm x [] = Perm.refl (x ∷ [])
  insert-perm x (y ∷ ys) = elim (Bool-cases (lt y x)) [
    | inl e ↦ rw e (Perm.trans (Perm.cons y (insert-perm x ys)) (Perm.swap x y ys))
    | inr e ↦ rw e (Perm.refl (x ∷ y ∷ ys))
  ]

  -- The result holds the same items, each as often.
  pub sort-perm : (xs : List A) → Perm (sort xs) xs
  unfolding sort
  sort-perm [] = Perm.refl []
  sort-perm (x ∷ xs) = Perm.trans (insert-perm x (sort xs)) (Perm.cons x (sort-perm xs))

  pub length-insert : (x : A) (xs : List A) → length (insert x xs) ≡ length xs + 1
  unfolding insert
  length-insert x [] = omega arith
  length-insert x (y ∷ ys) = ground (arith, length-insert x ys)

  pub length-sort : (xs : List A) → length (sort xs) ≡ length xs
  unfolding sort
  length-sort [] = refl
  length-sort (x ∷ xs) = omega (arith, length-insert x (sort xs), length-sort xs)

  module _ (asymm : (x y : A) → lt x y ≡ true → lt y x ≡ false)
      (ge_trans : (x y z : A) → lt x y ≡ false → lt y z ≡ false → lt x z ≡ false) where
    NoneBefore-trans : (x y : A) (ys : List A) → lt y x ≡ false → NoneBefore y ys → NoneBefore x ys
    NoneBefore-trans x y [] h k = tt
    NoneBefore-trans x y (z ∷ zs) h k = (ge_trans z y x k.0 h, NoneBefore-trans x y zs h k.1)

    NoneBefore-insert :
        (x y : A) (ys : List A) → lt x y ≡ false → NoneBefore y ys → NoneBefore y (insert x ys)
    unfolding insert
    NoneBefore-insert x y [] h k = (h, tt)
    NoneBefore-insert x y (z ∷ zs) h k = elim (Bool-cases (lt z x)) [
      | inl e ↦ rw e (k.0, NoneBefore-insert x y zs h k.1)
      | inr e ↦ rw e (h, k)
    ]

    insert-IsSorted : (x : A) (xs : List A) → IsSorted xs → IsSorted (insert x xs)
    unfolding insert
    insert-IsSorted x [] s = (tt, tt)
    insert-IsSorted x (y ∷ ys) s = elim (Bool-cases (lt y x)) [
      | inl e ↦ rw e (NoneBefore-insert x y ys (asymm y x e) s.0, insert-IsSorted x ys s.1)
      | inr e ↦ rw e ((e, NoneBefore-trans x y ys e s.0), s)
    ]

    -- In the result no item comes before an earlier one.
    pub sort-IsSorted : (xs : List A) → IsSorted (sort xs)
    unfolding sort
    sort-IsSorted [] = tt
    sort-IsSorted (x ∷ xs) = insert-IsSorted x (sort xs) (sort-IsSorted xs)

    module _ (antisymm : (x y : A) → lt x y ≡ false → lt y x ≡ false → x ≡ y) where
      insert_comm : (x y : A) (l : List A) → insert x (insert y l) ≡ insert y (insert x l)
      unfolding insert
      insert_comm x y [] = ground (arith, asymm x y, asymm y x, antisymm x y)
      insert_comm x y (z ∷ zs) = ground (
        arith,
        asymm x y,
        asymm y x,
        antisymm x y,
        ge_trans x z y,
        ge_trans y z x,
        asymm z x,
        asymm z y,
        asymm x z,
        asymm y z,
        insert_comm x y zs,
      )

      -- Where items that neither precede nor follow one another are equal, the order of the input
      -- does not matter.
      pub sort-perm_eq : {xs ys : List A} → Permᴰ xs ys → sort xs ≡ sort ys
      unfolding sort
      sort-perm_eq Permᴰ.nil = refl
      sort-perm_eq (Permᴰ.cons e p) = λ i. insert (e i) (sort-perm_eq p i)
      sort-perm_eq (Permᴰ.swap {a = a} {b = b} {l = l} e d) =
          insert_comm a b (sort l) ∙ (λ i. insert (d i) (insert (e i) (sort l)))
      sort-perm_eq (Permᴰ.trans p q) = sort-perm_eq p ∙ sort-perm_eq q

-- A stable sort leaves the items of one class in their order, where no item of the class comes before
-- another.
module _ {ℓ} {A : Type ℓ} (lt : A → A → Bool) (same : A → Bool) where
  pub filter : List A → List A
  filter [] = []
  filter (x ∷ xs) = if same x then x ∷ filter xs else filter xs

  module _ (tied : (x y : A) → same x ≡ true → same y ≡ true → lt x y ≡ false) where
    filter-insert : (x : A) (xs : List A) → filter (insert lt x xs) ≡ filter (x ∷ xs)
    unfolding filter insert
    filter-insert x [] = refl
    filter-insert x (y ∷ ys) = ground (arith, filter-insert x ys, tied y x)

    pub filter-sort : (xs : List A) → filter (sort lt xs) ≡ filter xs
    unfolding filter sort
    filter-sort [] = refl
    filter-sort (x ∷ xs) = ground (arith, filter-insert x (sort lt xs), filter-sort xs)
