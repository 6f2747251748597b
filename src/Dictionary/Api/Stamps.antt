-- ===== src/Dictionary/Api/Stamps.antt =====
-- The versions that the replies of the API of the keyword dictionary give.
use emergency_contact.Prelude.{
  String, ◌≡◌, refl, ap, sym, subst, ◌∙◌, Bool, true, false, Option, none, some, arith,
}
use emergency_contact.Prelude.Int.{ℤ, pos, ◌+ℤ◌, ◌≤ℤ◌}
use emergency_contact.Python.Results.{Result, ok, err, ok_injective}
use emergency_contact.Python.Values.{Value, lookup}
use emergency_contact.Python.Actions.{
  Action, pure, lift, ◌>>=◌, continue, Keeps, >>=-returns, Returns,
}
use emergency_contact.Aws.Rows.{Rows, Elsewhere, or_key}
use emergency_contact.CycleApi.Request.{Library}
use emergency_contact.Dictionary.Changes.{meta_key, as_int}
use emergency_contact.Dictionary.Api.{
  Services, Reply, created, changed, require_passed, increment_version,
}
use emergency_contact.Dictionary.Api.Versions.{
  Documented, VersionIs, Keyed, Advances, update_version, version_condition-expected,
  set_version-VersionIs,
}

-- The version of a reply to a change.
unfoldable pub saved_version : Reply → Option ℤ
saved_version (created p v) = some v
saved_version (changed p v) = some v
saved_version _ = none

module _ {W : Type 0} (t : Rows W (String × String)) where
  -- A reply with a version: it is one more than the version before, where there was one, and the
  -- version afterwards is not below it.
  abbrev pub Stamps : ℤ → W → W → Type 0
  Stamps v before after =
      ((n : ℤ) → VersionIs n (t.row_at before meta_key) → v ≡ n +ℤ pos 1)
      × (Keyed t before → (m : ℤ) × VersionIs m (t.row_at after meta_key) × (v ≤ℤ m))

  pub record Stamped (m : Action W Reply) : Type 0 where
    pub stamps :
        (w : W) (r : Reply) (v : ℤ) → (m w).0 ≡ ok r → saved_version r ≡ some v → Stamps v w (m w).1

  later :
      (v : ℤ) (u w : W) (o p : Result Reply × W)
      → ((j : String × String) → t.row_at w j ≡ t.row_at u j)
      → o ≡ p
      → Stamps v w p.1
      → Stamps v u o.1
  later v u w o p same e (first, rest) = (
    λ n h. first n (h.0, same meta_key ∙ h.1, h.2, h.3),
    λ k.
        subst (λ q. (m : ℤ) × VersionIs m (t.row_at q.1 meta_key) × (v ≤ℤ m)) (sym e)
          (rest
            (ap (λ o. lookup "category" (or_key o (t.key_fields meta_key))) (same meta_key) ∙ k)),
  )

  pub >>=-Stamped :
      {A : Type 0} (m : Action W A) (f : A → Action W Reply)
      → Elsewhere t m
      → ((a : A) → Stamped (f a))
      → Stamped (m >>= f)
  >>=-Stamped m f u g = record {
    stamps = λ w r v h q.
        let (a, e, ran) = >>=-returns m f w r h in
        later v w (m w).1 _ _ (u w) ran ((g a).stamps (m w).1 r v (sym (ap (λ o. o.0) ran) ∙ h) q);
  }

  pub lift->>=-Stamped :
      {A : Type 0} (r : Result A) (f : A → Action W Reply)
      → ((a : A) → r ≡ ok a → Stamped (f a))
      → Stamped (lift r >>= f)
  unfolding lift ◌>>=◌ continue
  lift->>=-Stamped (ok a) f g = record { stamps = λ w r v h q. (g a refl).stamps w r v h q }
  lift->>=-Stamped (err e) f g = record { stamps = λ w r v h q. cc }

  pub pure-Stamped : (r : Reply) → saved_version r ≡ none → Stamped (pure r)
  unfolding pure
  pure-Stamped r unsaved = record {
    stamps = λ w x v h q.
        let never : none ≡ some v = sym unsaved ∙ ap saved_version (ok_injective h) ∙ q in cc;
  }

module _ {W : Type 0} (t : Rows W (String × String)) (s : Services W) (d : Documented t s)
    (lib : Library) where
  passes :
      (x v : ℤ) (o : Result Bool × W)
      → (continue (λ passed. lift (require_passed passed) >>= λ done. pure x) o).0 ≡ ok v
      → (o.0 ≡ ok true)
        × ((continue (λ passed. lift (require_passed passed) >>= λ done. pure x) o).1 ≡ o.1)
        × (v ≡ x)
  unfolding continue ◌>>=◌ lift pure require_passed
  passes x v (ok true, u) h = (refl, refl, sym (ok_injective h))
  passes x v (ok false, u) h = cc
  passes x v (err e, u) h = cc

  -- What a new version says of the states before and after.
  increment-Stamps :
      (expected : Value) (w : W) (v : ℤ)
      → (increment_version s lib expected w).0 ≡ ok v
      → Stamps t v w (increment_version s lib expected w).1
  unfolding increment_version ◌>>=◌ or_key
  increment-Stamps expected w v h =
      let (answered, ran, is) =
        passes (as_int expected +ℤ pos 1) v (update_version t s d lib expected w) h in
      let test = (d.update_checks _ _ _).passed w answered in
      let new = ran_at ran ∙ (d.updates _ _ _).written w answered in
      (
        λ n there. is ∙ ap (λ a. a +ℤ pos 1) (version_condition-expected expected n _ there test),
        λ keyed.
            let there = set_version-VersionIs (as_int expected +ℤ pos 1) _ keyed in
            (_, (there.0, new ∙ there.1, there.2, there.3), below is),
      )
    where
      ran_at : {u x : W} → u ≡ x → t.row_at u meta_key ≡ t.row_at x meta_key
      ran_at e = ap (λ y. t.row_at y meta_key) e

      below : {a b : ℤ} → a ≡ b → a ≤ℤ b
      below e = rw e (omega arith)

  pub increment-then :
      (expected : Value) (f : ℤ → Action W Reply)
      → ((v : ℤ) → Keeps (Advances t) (f v))
      → ((v : ℤ) → Returns (λ r w. (x : ℤ) → saved_version r ≡ some x → x ≡ v) (f v))
      → Stamped t (increment_version s lib expected >>= f)
  increment-then expected f k g = record {
    stamps = λ w r v h q.
        let (x, e, ran) = >>=-returns (increment_version s lib expected) f w r h in
        let (before, after) = increment-Stamps expected w x e in
        let same = (g x).holds _ r (sym (ap (λ o. o.0) ran) ∙ h) v q in
        (
          λ n there. same ∙ before n there,
          λ keyed.
              let (m, there, up) = after keyed in
              let (l, now, further) = ((k x).run _).advances m there in
              (
                l,
                (now.0, ap (λ o. t.row_at o.1 meta_key) ran ∙ now.1, now.2, now.3),
                reaches m l same up further,
              ),
        );
  }
    where
      reaches : {v x : ℤ} (m l : ℤ) → v ≡ x → x ≤ℤ m → m ≤ℤ l → v ≤ℤ l
      reaches m l e up further = rw e (omega arith)
