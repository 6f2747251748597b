-- ===== src/Python/Contracts.antt =====
-- What an action achieves from the states that meet a condition.
use emergency_contact.Prelude.{◌≡◌, refl, sym, ap, subst, ◌∙◌}
use emergency_contact.Python.Results.{Result, ok, err}
use emergency_contact.Python.Actions.{Action, lift, ◌>>=◌, continue, >>=-returns}

-- Where the run starts in a state that meets the condition, and returns, its value and its state do.
pub record Ensures {W A : Type 0} (Pre : W → Type 0) (Post : A → W → Type 0) (m : Action W A)
    : Type 0 where
  pub holds : (w : W) (a : A) → Pre w → (m w).0 ≡ ok a → Post a (m w).1

module _ {W A B : Type 0} {Pre Mid : W → Type 0} {Post : B → W → Type 0} where
  -- The first action leads from one condition to the other, and the rest starts there.
  pub >>=-Ensures :
      (m : Action W A) (f : A → Action W B)
      → ((w : W) (a : A) → (m w).0 ≡ ok a → Pre w → Mid (m w).1)
      → ((a : A) → Ensures Mid Post (f a))
      → Ensures Pre Post (m >>= f)
  >>=-Ensures m f lead g = record { holds = λ w b p h. after w b p h (>>=-returns m f w b h) }
    where
      after :
          (w : W) (b : B)
          → Pre w
          → ((m >>= f) w).0 ≡ ok b
          → (a : A) × ((m w).0 ≡ ok a) × ((m >>= f) w ≡ f a (m w).1)
          → Post b ((m >>= f) w).1
      after w b p h (a, k, e) =
          subst (λ o. Post b o.1) (sym e)
            ((g a).holds (m w).1 b (lead w a k p) (sym (ap (λ o. o.0) e) ∙ h))

module _ {W A B : Type 0} {Pre : W → Type 0} {Post : B → W → Type 0} where
  pub lift-Ensures :
      (r : Result A) (f : A → Action W B)
      → ((a : A) → r ≡ ok a → Ensures Pre Post (f a))
      → Ensures Pre Post (lift r >>= f)
  unfolding lift ◌>>=◌ continue
  lift-Ensures (ok a) f g = record { holds = λ w b p h. (g a refl).holds w b p h }
  lift-Ensures (err e) f g = record { holds = λ w b p h. cc }
