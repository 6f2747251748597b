-- ===== src/Dictionary/Api/Increasing.antt =====
-- Each change of the keyword dictionary gets a version of its own.
use emergency_contact.Prelude.{
  String, ◌≡◌, refl, ap, sym, subst, ◌∙◌, true, none, some, arith, inl, inr, Bool-cases, str_eq,
}
use emergency_contact.Prelude.Int.{ℤ, pos, ◌+ℤ◌, ◌≤ℤ◌}
use emergency_contact.Python.Results.{Result, ok, err, ok_injective, client_error, value_error}
use emergency_contact.Python.Values.{Value, Fields, mem}
use emergency_contact.Python.Actions.{
  Action, pure, lift, attempt, ◌>>=◌, continue, Keeps, >>=-Keeps, lift-Keeps, pure-Keeps,
  >>=-returns, Returns, >>=-Returns,
}
use emergency_contact.Aws.Rows.{Rows, Unchanged, Unchanged-IsPreorder}
use emergency_contact.CycleApi.Request.{Library}
use emergency_contact.CycleApi.Routes.{is_value_error}
use emergency_contact.Dictionary.Snapshot.{valid_categories}
use emergency_contact.Dictionary.Changes.{Change, parse_change}
use emergency_contact.Dictionary.Api.{
  Services, Reply, listed, current, created, changed, conflict, not_allowed, bad_request,
  store_created, store_changed, store_deleted, create_change, create_keyword, update_change,
  update_keyword, delete_change, delete_keyword, get_list, get_version, post_keyword, with_path,
  route, answer, principal_of, lambda_handler,
}
use emergency_contact.Dictionary.Api.Versions.{
  Documented, Keyed, Keyed, Advances, parse_change-Valid,
}
use emergency_contact.Dictionary.Api.Cases.{route_holds}
use emergency_contact.Dictionary.Api.Advance.{
  store_created-Advances, store_changed-Advances, store_deleted-Advances,
}
use emergency_contact.Dictionary.Api.Stamps.{
  saved_version, Stamped, Stamps, pure-Stamped, >>=-Stamped, lift->>=-Stamped, increment-then,
}

module _ {W : Type 0} (t : Rows W (String × String)) (s : Services W) (d : Documented t s)
    (lib : Library) where
  abbrev Gives : ℤ → Reply → W → Type 0
  Gives v r w = (x : ℤ) → saved_version r ≡ some x → x ≡ v

  some_equal : {a b : ℤ} → some a ≡ some b → a ≡ b
  some_equal h = cc

  pure-Gives : (v : ℤ) (r : Reply) → saved_version r ≡ some v → Returns (Gives v) (pure r)
  unfolding pure
  pure-Gives v r e = record {
    holds = λ w a h x q.
        let same = ap saved_version (ok_injective h) in some_equal (sym q ∙ sym same ∙ e);
  }

  give :
      {A : Type 0} (v : ℤ) (m : Action W A) (f : A → Action W Reply)
      → ((a : A) → Returns (Gives v) (f a))
      → Returns (Gives v) (m >>= f)
  give v m f g = >>=-Returns (Gives v) m f g

  module _ (principal : Value) (p : Change) where
    created-Gives : (v : ℤ) → Returns (Gives v) (store_created s lib principal p v)
    unfolding store_created saved_version
    created-Gives v = give v _ _ (λ passed.
        give v _ _
          (λ done. give v _ _ (λ written. give v _ _ (λ logged. pure-Gives v (created p v) refl))))

    changed-Gives :
        (row : Fields) (v : ℤ) → Returns (Gives v) (store_changed s lib principal p row v)
    unfolding store_changed saved_version
    changed-Gives row v = give v _ _ (λ updated.
        give v _ _
          (λ written. give v _ _ (λ old. give v _ _ (λ logged. pure-Gives v (changed p v) refl))))

    deleted-Gives : (v : ℤ) → Returns (Gives v) (store_deleted s lib principal p v)
    unfolding store_deleted saved_version
    deleted-Gives v = give v _ _ (λ passed.
        give v _ _
          (λ done. give v _ _ (λ written. give v _ _ (λ logged. pure-Gives v (changed p v) refl))))

    module _ (valid : mem p.category valid_categories ≡ true) where
      create-Stamped : Stamped t (create_change s lib principal p)
      unfolding create_change
      create-Stamped =
          increment-then t s d lib p.expected _ (store_created-Advances t s d lib principal p valid)
            created-Gives

      update-Stamped : Stamped t (update_change s lib principal p)
      unfolding update_change
      update-Stamped = >>=-Stamped t _ _ (d.gets_elsewhere _) (λ item.
          lift->>=-Stamped t _ _ (λ existing e.
            increment-then t s d lib p.expected _
              (store_changed-Advances t s d lib principal p valid existing)
              (changed-Gives existing)))

      delete-Stamped : Stamped t (delete_change s lib principal p)
      unfolding delete_change
      delete-Stamped =
          increment-then t s d lib p.expected _ (store_deleted-Advances t s d lib principal p valid)
            deleted-Gives

  parsed :
      (place body : Fields) (f : Change → Action W Reply)
      → ((p : Change) → mem p.category valid_categories ≡ true → Stamped t (f p))
      → Stamped t (lift (parse_change place body) >>= f)
  parsed place body f g = lift->>=-Stamped t _ f (λ p e. g p (parse_change-Valid place body p e))

  with_path-Stamped :
      (change : Fields → Fields → Value → Action W Reply) (event : Fields) (principal : Value)
      → ((path body : Fields) → Stamped t (change path body principal))
      → Stamped t (with_path s lib change event principal)
  unfolding with_path
  with_path-Stamped change event principal g =
      lift->>=-Stamped t _ _ (λ body e. lift->>=-Stamped t _ _ (λ path h. g path body))

  -- A reply without a version.
  unsaved :
      {A : Type 0} (m : Action W A) (f : A → Reply)
      → ((a : A) → saved_version (f a) ≡ none)
      → Stamped t (m >>= λ a. pure (f a))
  unfolding pure
  unsaved m f e = record {
    stamps = λ w r v h q.
        let (a, answered, ran) = >>=-returns m (λ x. pure (f x)) w r h in
        let same : f a ≡ r = ok_injective (sym (ap (λ o. o.0) ran) ∙ h) in
        let never : none ≡ some v = sym (e a) ∙ ap saved_version same ∙ q in cc;
  }

  route-Stamped : (event : Fields) (principal : Value) → Stamped t (route s lib event principal)
  unfolding get_list get_version post_keyword create_keyword update_keyword delete_keyword
      saved_version
  route-Stamped event principal =
      route_holds (Stamped t) s lib event principal (unsaved _ listed (λ g. refl))
        (unsaved _ current (λ v. refl))
        (lift->>=-Stamped t _ _
          (λ body e. parsed body body _ (λ p valid. create-Stamped principal p valid)))
        (with_path-Stamped (update_keyword s lib) event principal
          (λ path body. parsed path body _ (λ p valid. update-Stamped principal p valid)))
        (with_path-Stamped (delete_keyword s lib) event principal
          (λ path body. parsed path body _ (λ p valid. delete-Stamped principal p valid)))
        (pure-Stamped t not_allowed refl)

  -- A reply with a version is one of the route.
  answered :
      (o : Result Reply) (u : W) (r : Reply) (v : ℤ)
      → (answer s lib o u).0 ≡ ok r
      → saved_version r ≡ some v
      → (o ≡ ok r) × ((answer s lib o u).1 ≡ u)
  unfolding answer pure lift saved_version is_value_error
  answered (ok a) u r v h q = (h, refl)
  answered (err (client_error code)) u r v h q =
      elim (Bool-cases (str_eq code "ConditionalCheckFailedException")) [
        | inl e ↦
            let now = rw e at h in
            let same : conflict ≡ r = ok_injective now in
            let never : none ≡ some v = ap saved_version same ∙ q in cc
        | inr e ↦ let now = rw e at h in cc
      ]
  answered (err value_error) u r v h q =
      let same : bad_request ≡ r = ok_injective h in
      let never : none ≡ some v = ap saved_version same ∙ q in cc
  answered (err _) u r v h q = cc

  answer-Stamped : (m : Action W Reply) → Stamped t m → Stamped t (attempt m >>= answer s lib)
  unfolding attempt ◌>>=◌ continue
  answer-Stamped m g = record {
    stamps = λ w r v h q.
        let (returned, same) = answered (m w).0 (m w).1 r v h q in
        subst (λ u. Stamps t v w u) (sym same) (g.stamps w r v returned q);
  }

  principal_of-Unchanged : (event : Fields) → Keeps (Unchanged t) (principal_of event)
  unfolding principal_of
  principal_of-Unchanged event =
      >>=-Keeps (Unchanged-IsPreorder t) _ _ (lift-Keeps (Unchanged-IsPreorder t) _) (λ context.
        >>=-Keeps (Unchanged-IsPreorder t) _ _ (lift-Keeps (Unchanged-IsPreorder t) _)
          (λ authorizer.
            >>=-Keeps (Unchanged-IsPreorder t) _ _ (lift-Keeps (Unchanged-IsPreorder t) _)
              (λ claims. pure-Keeps (Unchanged-IsPreorder t) _)))

  lambda_handler-Stamped : (event : Fields) → Stamped t (lambda_handler s lib event)
  unfolding lambda_handler
  lambda_handler-Stamped event =
      >>=-Stamped t (principal_of event) _ (λ w j. (principal_of-Unchanged event).run w j)
        (λ principal. answer-Stamped _ (route-Stamped event principal))

  one_up : (v m l : ℤ) {v' : ℤ} → v' ≡ l +ℤ pos 1 → v ≤ℤ m → m ≤ℤ l → (v +ℤ pos 1) ≤ℤ v'
  unfolding ◌+ℤ◌
  one_up v m l e up further = rw e (ground arith)

  -- The versions that the API of the keyword dictionary gives to changes increase: where a request
  -- changes a keyword and gives it a version, a later request that does gives a higher one, whatever
  -- happens between them that does not lower the version of the dictionary. The row of the version has
  -- its key at first, where it is there, and the services are any that act on the table of the
  -- keywords as documented.
  pub versions_increase :
      (first second : Fields) (w u : W) (r r' : Reply) (v v' : ℤ)
      → Keyed t w
      → (lambda_handler s lib first w).0 ≡ ok r
      → saved_version r ≡ some v
      → Advances t (lambda_handler s lib first w).1 u
      → (lambda_handler s lib second u).0 ≡ ok r'
      → saved_version r' ≡ some v'
      → (v +ℤ pos 1) ≤ℤ v'
  versions_increase first second w u r r' v v' keyed h q between h' q' =
      let (m, there, up) = ((lambda_handler-Stamped first).stamps w r v h q).1 keyed in
      let (l, now, further) = between.advances m there in
      let next = ((lambda_handler-Stamped second).stamps u r' v' h' q').0 l now in
      one_up v m l next up further
