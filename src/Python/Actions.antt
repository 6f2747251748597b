-- ===== src/Python/Actions.antt =====
-- A function with effects: an action on the state `W` of the services that it calls. An exception
-- keeps what the calls before it did.
use emergency_contact.Prelude.{
  ◌≡◌, refl, sym, ap, subst, ◌∙◌, ◌⊎◌, inl, inr, Bool, true, false, if◌then◌else◌,
}
use emergency_contact.Python.Results.{Result, ok, err, Error, ok_injective}

abbrev pub Action : Type 0 → Type 0 → Type 0
Action W A = W → Result A × W

unfoldable pub pure : {W A : Type 0} → A → Action W A
pure a w = (ok a, w)

-- A call without effects, or the exception that it raises.
unfoldable pub lift : {W A : Type 0} → Result A → Action W A
lift r w = (r, w)

unfoldable pub continue : {W A B : Type 0} → (A → Action W B) → Result A × W → Result B × W
continue f (ok a, w) = f a w
continue f (err e, w) = (err e, w)

infixl 5 ◌>>=◌
unfoldable pub ◌>>=◌ : {W A B : Type 0} → Action W A → (A → Action W B) → Action W B
unfolding continue
◌>>=◌ m f w = continue f (m w)

-- The body of a `try`, with its outcome as a value.
unfoldable pub attempt : {W A : Type 0} → Action W A → Action W (Result A)
attempt m w = (ok (m w).0, (m w).1)

-- An `if` without an `else`.
unfoldable pub when : {W : Type 0} → Bool → Action W Bool → Action W Bool
unfolding pure
when b m = if b then m else pure false

-- A relation between the states before and after, which steps in a row keep.
pub record IsPreorder {W : Type 0} (R : W → W → Type 0) : Type 0 where
  pub reflexive : (w : W) → R w w
  pub transitive : (u v w : W) → R u v → R v w → R u w

-- Every run of the action, also one that raises, stays within the relation.
pub record Keeps {W A : Type 0} (R : W → W → Type 0) (m : Action W A) : Type 0 where
  pub run : (w : W) → R w (m w).1

module _ {W : Type 0} {R : W → W → Type 0} (p : IsPreorder R) where
  pub pure-Keeps : {A : Type 0} (a : A) → Keeps R (pure a)
  unfolding pure
  pure-Keeps a = record { run = λ w. p.reflexive w }

  pub lift-Keeps : {A : Type 0} (r : Result A) → Keeps R (lift r)
  unfolding lift
  lift-Keeps r = record { run = λ w. p.reflexive w }

  continue-Keeps :
      {A B : Type 0} (f : A → Action W B) (w : W) (o : Result A × W)
      → ((a : A) → Keeps R (f a))
      → R w o.1
      → R w (continue f o).1
  unfolding continue
  continue-Keeps f w (ok a, v) k g = p.transitive w v (f a v).1 g ((k a).run v)
  continue-Keeps f w (err e, v) k g = g

  pub >>=-Keeps :
      {A B : Type 0} (m : Action W A) (f : A → Action W B)
      → Keeps R m
      → ((a : A) → Keeps R (f a))
      → Keeps R (m >>= f)
  unfolding ◌>>=◌
  >>=-Keeps m f g k = record { run = λ w. continue-Keeps f w (m w) k (g.run w) }

  -- What follows a test knows that the test returned.
  pub lift->>=-Keeps :
      {A B : Type 0} (r : Result A) (f : A → Action W B)
      → ((a : A) → r ≡ ok a → Keeps R (f a))
      → Keeps R (lift r >>= f)
  unfolding lift ◌>>=◌ continue
  lift->>=-Keeps (ok a) f g = record { run = λ w. (g a refl).run w }
  lift->>=-Keeps (err e) f g = record { run = λ w. p.reflexive w }

  pub when-Keeps : (b : Bool) (m : Action W Bool) → Keeps R m → Keeps R (when b m)
  unfolding when
  when-Keeps true m g = g
  when-Keeps false m g = pure-Keeps false

module _ {W : Type 0} {R : W → W → Type 0} where
  pub if-Keeps :
      {A : Type 0} (b : Bool) (m n : Action W A)
      → Keeps R m
      → Keeps R n
      → Keeps R (if b then m else n)
  if-Keeps true m n g k = g
  if-Keeps false m n g k = k

  pub attempt-Keeps : {A : Type 0} (m : Action W A) → Keeps R m → Keeps R (attempt m)
  unfolding attempt
  attempt-Keeps m g = record { run = g.run }

-- Inversion of a run that returns.
module _ {W A B : Type 0} where
  pub >>=-returns :
      (m : Action W A) (f : A → Action W B) (w : W) (b : B)
      → ((m >>= f) w).0 ≡ ok b
      → (a : A) × ((m w).0 ≡ ok a) × ((m >>= f) w ≡ f a (m w).1)
  unfolding ◌>>=◌ continue
  >>=-returns m f w b h = first (m w) h
    where
      first :
          (o : Result A × W)
          → (continue f o).0 ≡ ok b
          → (a : A) × (o.0 ≡ ok a) × (continue f o ≡ f a o.1)
      first (ok a, v) k = (a, refl, refl)
      first (err e, v) k = cc

  pub >>=-ok :
      (m : Action W A) (f : A → Action W B) (w : W) (a : A)
      → (m w).0 ≡ ok a
      → (m >>= f) w ≡ f a (m w).1
  unfolding ◌>>=◌ continue
  >>=-ok m f w a h = first (m w) h
    where
      first : (o : Result A × W) → o.0 ≡ ok a → continue f o ≡ f a o.1
      first (ok b, v) k = let same : b ≡ a = ok_injective k in λ i. f (same i) v
      first (err e, v) k = cc

  pub >>=-pure :
      (m : Action W A) (b c : B) (w : W)
      → ((m >>= λ x. pure b) w).0 ≡ ok c
      → (a : A) × ((m w).0 ≡ ok a) × ((m >>= λ x. pure b) w ≡ (ok b, (m w).1)) × (b ≡ c)
  unfolding ◌>>=◌ continue pure
  >>=-pure m b c w h = first (m w) h
    where
      first :
          (o : Result A × W)
          → (continue (λ x. pure b) o).0 ≡ ok c
          → (a : A) × (o.0 ≡ ok a) × (continue (λ x. pure b) o ≡ (ok b, o.1)) × (b ≡ c)
      first (ok a, v) k = (a, refl, refl, ok_injective k)
      first (err e, v) k = cc

  -- The two ways of a run: the rest runs, or the exception comes out.
  pub >>=-cases :
      (m : Action W A) (f : A → Action W B) (w : W)
      → ((a : A) × ((m w).0 ≡ ok a) × ((m >>= f) w ≡ f a (m w).1))
        ⊎ ((e : Error) × ((m w).0 ≡ err e) × ((m >>= f) w ≡ (err e, (m w).1)))
  unfolding ◌>>=◌ continue
  >>=-cases m f w = first (m w)
    where
      first :
          (o : Result A × W)
          → ((a : A) × (o.0 ≡ ok a) × (continue f o ≡ f a o.1))
            ⊎ ((e : Error) × (o.0 ≡ err e) × (continue f o ≡ (err e, o.1)))
      first (ok a, v) = inl (a, refl, refl)
      first (err e, v) = inr (e, refl, refl)

-- What holds of the value and the state wherever the action returns.
pub record Returns {W A : Type 0} (P : A → W → Type 0) (m : Action W A) : Type 0 where
  pub holds : (w : W) (a : A) → (m w).0 ≡ ok a → P a (m w).1

module _ {W A B : Type 0} where
  pub >>=-Returns :
      (P : B → W → Type 0) (m : Action W A) (f : A → Action W B)
      → ((a : A) → Returns P (f a))
      → Returns P (m >>= f)
  >>=-Returns P m f g = record { holds = λ w b h. after w b h (>>=-returns m f w b h) }
    where
      after :
          (w : W) (b : B)
          → ((m >>= f) w).0 ≡ ok b
          → (a : A) × ((m w).0 ≡ ok a) × ((m >>= f) w ≡ f a (m w).1)
          → P b ((m >>= f) w).1
      after w b h (a, k, e) =
          subst (λ o. P b o.1) (sym e) ((g a).holds (m w).1 b (sym (ap (λ o. o.0) e) ∙ h))

module _ {W A B : Type 0} where
  pub lift->>=-Returns :
      (P : B → W → Type 0) (r : Result A) (f : A → Action W B)
      → ((a : A) → r ≡ ok a → Returns P (f a))
      → Returns P (lift r >>= f)
  unfolding lift ◌>>=◌ continue
  lift->>=-Returns P (ok a) f g = record { holds = λ w b h. (g a refl).holds w b h }
  lift->>=-Returns P (err e) f g = record { holds = λ w b h. cc }

module _ {W : Type 0} where
  pub lift_err-Returns : {A : Type 0} (P : A → W → Type 0) (e : Error) → Returns P (lift (err e))
  unfolding lift
  lift_err-Returns P e = record { holds = λ w a h. cc }

  pub if-Returns :
      {A : Type 0} (P : A → W → Type 0) (b : Bool) (m n : Action W A)
      → Returns P m
      → Returns P n
      → Returns P (if b then m else n)
  if-Returns P true m n g k = g
  if-Returns P false m n g k = k
