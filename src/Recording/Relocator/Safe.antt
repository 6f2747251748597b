-- ===== src/Recording/Relocator/Safe.antt =====
-- No recording is lost when it is moved.
use Prim.Native.Char.{code}
use emergency_contact.Prelude.{
  ℕ, zero, suc, String, ◌≡◌, ◌≢◌, refl, sym, ap, subst, ◌∙◌, ◌⊎◌, inl, inr, true, false, Option,
  none, some, List, [], ◌∷◌, ltb,
}
use emergency_contact.Prelude.Int.{pos}
use emergency_contact.Python.Results.{Result, ok, err, ok_injective}
use emergency_contact.Python.Values.{Value, int, str, Fields}
use emergency_contact.Python.Actions.{
  Action, lift, ◌>>=◌, >>=-cases, >>=-ok, IsPreorder, Keeps, >>=-Keeps, pure-Keeps, lift-Keeps,
  attempt-Keeps, if-Keeps,
}
use emergency_contact.Aws.Retries.{pause}
use emergency_contact.Keyword.Event.{parse_event}
use emergency_contact.Recording.Parsing.{is_number}
use emergency_contact.Recording.Native.{
  ConnectNativeKeyInfo, after_prefix, parse_connect_native_key,
}
use emergency_contact.Recording.Relocator.{
  Services, Library, Reply, wait_then, after_query, lookup_from, lookup_response_by_contact_id,
  origin_of, copy_and_delete, target_of, relocate, key_if, require_prefix, require_native,
  is_retryable, max_gsi_attempts, lambda_handler,
}
use emergency_contact.Recording.Relocator.Distinct.{derived_key-not_native}

-- The content of an object of a bucket, and what the calls do to it, as documented: a copy that returns
-- has made the target, and a call that raises may have made it or not.
pub record IsStore {W C : Type 0} (content : W → Value → String → C) (s : Services W) : Type 0 where
  pub copies :
      (b : Value) (source target : String) (w : W)
      → (s.copy_object b source target w).0 ≡ ok tt
      → content (s.copy_object b source target w).1 b target ≡ content w b source
  pub copy_keeps :
      (b : Value) (source target : String) (w : W) (k : String)
      → k ≢ target
      → content (s.copy_object b source target w).1 b k ≡ content w b k
  pub delete_keeps :
      (b : Value) (k : String) (w : W) (j : String)
      → j ≢ k
      → content (s.delete_object b k w).1 b j ≡ content w b j
  pub query_keeps :
      (id : String) (w : W) (b : Value) (k : String)
      → content (s.query_contact id w).1 b k ≡ content w b k
  pub sleep_keeps :
      (i : ℕ) (w : W) (b : Value) (k : String) → content (s.back_off i w).1 b k ≡ content w b k

module _ {W C : Type 0} (content : W → Value → String → C) (s : Services W) (d : IsStore content s)
    (lib : Library) where
  abbrev Same : W → W → Type 0
  Same before after = (b : Value) (k : String) → content after b k ≡ content before b k

  Same-IsPreorder : IsPreorder Same
  Same-IsPreorder = record {
    reflexive = λ w b k. refl;
    transitive = λ u v w g h b k. h b k ∙ g b k;
  }

  -- The content of the source stands there, or at a key that is not one of Connect.
  abbrev pub Safe : Value → String → W → W → Type 0
  Safe b source before after =
      (content after b source ≡ content before b source)
      ⊎ ((target : String) × (parse_connect_native_key lib.is_decimal (str target) ≡ none)
          × (content after b target ≡ content before b source))

  wait-Keeps :
      (i : ℕ) (next : Action W Fields) → Keeps Same next → Keeps Same (wait_then s lib i next)
  unfolding wait_then pause
  wait-Keeps i next g =
      >>=-Keeps Same-IsPreorder _ _
        (if-Keeps (ltb (suc i) max_gsi_attempts) (s.back_off i) _
          (record { run = λ w. d.sleep_keeps i w }) (pure-Keeps Same-IsPreorder tt))
        (λ slept. g)

  after_query-Keeps :
      (o : Result (List Fields)) (i : ℕ) (next : Action W Fields)
      → Keeps Same next
      → Keeps Same (after_query s lib o i next)
  unfolding after_query
  after_query-Keeps (ok []) i next g = wait-Keeps i next g
  after_query-Keeps (ok (row ∷ rows)) i next g = pure-Keeps Same-IsPreorder row
  after_query-Keeps (err e) i next g =
      if-Keeps (is_retryable e) _ _ (wait-Keeps i next g) (lift-Keeps Same-IsPreorder _)

  lookup-Keeps : (id : String) (left i : ℕ) → Keeps Same (lookup_from s lib id left i)
  unfolding lookup_from
  lookup-Keeps id zero i = lift-Keeps Same-IsPreorder _
  lookup-Keeps id (suc left) i =
      >>=-Keeps Same-IsPreorder _ _ (attempt-Keeps _ (record { run = λ w. d.query_keeps id w }))
        (λ o. after_query-Keeps o i _ (lookup-Keeps id left (suc i)))

  origin-Keeps : (row : Fields) → Keeps Same (origin_of s lib row)
  unfolding origin_of
  origin-Keeps row = >>=-Keeps Same-IsPreorder _ _ (lift-Keeps Same-IsPreorder _) (λ c.
      >>=-Keeps Same-IsPreorder _ _ (lift-Keeps Same-IsPreorder _) (λ e.
        >>=-Keeps Same-IsPreorder _ _ (lift-Keeps Same-IsPreorder _)
          (λ n. pure-Keeps Same-IsPreorder _)))

  module _ (b : Value) (source : String) where
    after-Same : (u v w : W) → Same u v → Safe b source v w → Safe b source u w
    after-Same u v w g (inl e) = inl (e ∙ g b source)
    after-Same u v w g (inr (k, n, e)) = inr (k, n, e ∙ g b source)

    before-Same : (u v w : W) → Safe b source u v → Same v w → Safe b source u w
    before-Same u v w (inl e) g = inl (g b source ∙ e)
    before-Same u v w (inr (k, n, e)) g = inr (k, n, g b k ∙ e)

    -- A step that leaves the objects alone, before one that is safe.
    Same-then :
        {A B : Type 0} (m : Action W A) (f : A → Action W B)
        → Keeps Same m
        → (w : W) → ((a : A) → (m w).0 ≡ ok a → Safe b source (m w).1 (f a (m w).1).1)
        → Safe b source w ((m >>= f) w).1
    Same-then m f g w h = elim (>>=-cases m f w) [
      | inl (a, k, e) ↦
          subst (λ o. Safe b source w o.1) (sym e) (after-Same w (m w).1 _ (g.run w) (h a k))
      | inr (x, k, e) ↦ subst (λ o. Safe b source w o.1) (sym e) (inl (g.run w b source))
    ]

    -- A safe step, before one that leaves the objects alone.
    then-Same :
        {A B : Type 0} (m : Action W A) (f : A → Action W B) (w : W)
        → Safe b source w (m w).1
        → ((a : A) → Keeps Same (f a))
        → Safe b source w ((m >>= f) w).1
    then-Same m f w h g = elim (>>=-cases m f w) [
      | inl (a, k, e) ↦
          subst (λ o. Safe b source w o.1) (sym e) (before-Same w (m w).1 _ h ((g a).run (m w).1))
      | inr (x, k, e) ↦ subst (λ o. Safe b source w o.1) (sym e) h
    ]

    module _ (info : ConnectNativeKeyInfo)
        (native : parse_connect_native_key lib.is_decimal (str source) ≡ some info) where
      differs :
          (target : String)
          → parse_connect_native_key lib.is_decimal (str target) ≡ none
          → source ≢ target
      differs target h e =
          let here = ap (λ k. parse_connect_native_key lib.is_decimal (str k)) e ∙ h in
          let never = sym native ∙ here in cc

      move-Safe :
          (target : String) (w : W)
          → parse_connect_native_key lib.is_decimal (str target) ≡ none
          → Safe b source w (copy_and_delete s lib b source target w).1
      unfolding copy_and_delete
      move-Safe target w h =
          elim (>>=-cases (s.copy_object b source target) (λ copied. s.delete_object b source) w) [
            | inl (a, k, e) ↦
                let kept =
                  d.delete_keeps b source (s.copy_object b source target w).1 target
                    (λ q. differs target h (sym q)) in
                subst (λ o. Safe b source w o.1) (sym e)
                  (inr (target, h, kept ∙ d.copies b source target w k))
            | inr (x, k, e) ↦
                subst (λ o. Safe b source w o.1) (sym e)
                  (inl (d.copy_keeps b source target w source (differs target h)))
          ]

      module _ (slash : lib.is_decimal (code "/") ≡ false)
          (digits : (n : ℕ) → is_number lib.is_decimal (lib.text_of (int (pos n))) ≡ true) where
        relocate-Safe : (w : W) → Safe b source w (relocate s lib b source info w).1
        unfolding relocate lookup_response_by_contact_id target_of lift
        relocate-Safe w = Same-then _ _ (lookup-Keeps info.contact_id _ 0) w (λ row k.
            Same-then _ _ (origin-Keeps row) _ (λ o q.
              Same-then _ _ (lift-Keeps Same-IsPreorder _) _ (λ target named.
                then-Same _ _ _
                  (move-Safe target _ (
                    derived_key-not_native lib.is_decimal slash lib.text_of digits o.cycle_id
                      o.employee_id o.seq target named))
                  (λ moved. pure-Keeps Same-IsPreorder _))))

  kept_key : (o : Option String) (source key : String) → key_if o source ≡ ok key → source ≡ key
  unfolding key_if
  kept_key none source key h = cc
  kept_key (some rest) source key h = ok_injective h

  prefixed :
      (prefix source key : String) → require_prefix prefix (str source) ≡ ok key → source ≡ key
  unfolding require_prefix
  prefixed prefix source key h = kept_key (after_prefix prefix source) source key h

  required :
      (o : Option ConnectNativeKeyInfo) (info : ConnectNativeKeyInfo)
      → require_native o ≡ ok info
      → o ≡ some info
  unfolding require_native
  required none info h = cc
  required (some i) info h = ap some (ok_injective h)

  -- A recording that is moved is never lost: after a run for an object, also one that raises, its content
  -- stands at its key, or at a key that is not one of Connect, so that it is not moved again. Assumed are
  -- the documented effects of the calls on the objects, that `str` writes a number with digits, at least
  -- one, and that a slash is no digit.
  pub lambda_handler-Safe :
      (slash : lib.is_decimal (code "/") ≡ false)
      → ((n : ℕ) → is_number lib.is_decimal (lib.text_of (int (pos n))) ≡ true)
      → (event b : Value) (source : String) (w : W) → parse_event event ≡ ok (b, str source)
      → Safe b source w (lambda_handler s lib event w).1
  unfolding lambda_handler lift
  lambda_handler-Safe slash digits event b source w parsed =
      let body : Value × Value → Action W Reply = λ place.
        lift (require_prefix lib.connect_recordings_prefix place.1) >>= λ key.
        lift (require_native (parse_connect_native_key lib.is_decimal (str key))) >>= λ info.
        relocate s lib place.0 key info in
      let ran = >>=-ok (lift (parse_event event)) body w (b, str source) parsed in
      subst (λ o. Safe b source w o.1) (sym ran)
        (Same-then b source _ _ (lift-Keeps Same-IsPreorder _) w (λ key k.
          let same = prefixed _ source key k in
          Same-then b source _ _ (lift-Keeps Same-IsPreorder _) w (λ info n.
            let native = required _ info n in
            subst (λ x. Safe b source w (relocate s lib b x info w).1) same
              (relocate-Safe b source info
                (ap (λ x. parse_connect_native_key lib.is_decimal (str x)) same ∙ native) slash
                digits w))))
