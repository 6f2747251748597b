-- ===== src/Aws/Retries.antt =====
-- The retries of a request: `_start_outbound_call` of backend/lambdas/connect_dispatcher/handler.py and
-- `_run_with_retry` of backend/lambdas/keyword_matcher/handler.py have this loop.
use emergency_contact.Prelude.{◌≡◌, ℕ, zero, suc, Bool, ltb, if◌then◌else◌}
use emergency_contact.Python.Results.{Result, ok, err, Error, exhausted}
use emergency_contact.Python.Actions.{
  Action, pure, lift, attempt, ◌>>=◌, IsPreorder, Keeps, >>=-Keeps, pure-Keeps, lift-Keeps,
  if-Keeps, attempt-Keeps, Returns, >>=-Returns, lift_err-Returns, if-Returns, continue,
}

module _ {W : Type 0} (is_retryable : Error → Bool) (back_off : ℕ → Action W (Unit {0}))
    (tries : ℕ) where
  -- No sleep follows the last turn.
  unfoldable pub pause : ℕ → Action W (Unit {0})
  pause try_idx = if ltb (suc try_idx) tries then back_off try_idx else pure tt

  -- The end of one turn of the loop, and the turns after it.
  unfoldable pub after_try : {A : Type 0} → Result A → ℕ → Action W A → Action W A
  after_try (ok a) try_idx next = pure a
  after_try (err e) try_idx next =
      if is_retryable e then (do slept ← pause try_idx; next) else lift (err e)

  -- The turns that are left, and the index of the next.
  unfoldable pub retry_from : {A : Type 0} → Action W A → ℕ → ℕ → Action W A
  retry_from once zero try_idx = lift (err exhausted)
  retry_from once (suc left) try_idx = do
    outcome ← attempt once
    after_try outcome try_idx (retry_from once left (suc try_idx))

  unfoldable pub retry : {A : Type 0} → Action W A → Action W A
  retry once = retry_from once tries 0

  module _ {R : W → W → Type 0} (p : IsPreorder R) (slept : (i : ℕ) → Keeps R (back_off i)) where
    after_try-Keeps :
        {A : Type 0} (o : Result A) (i : ℕ) (next : Action W A)
        → Keeps R next
        → Keeps R (after_try o i next)
    unfolding after_try pause
    after_try-Keeps (ok a) i next g = pure-Keeps p a
    after_try-Keeps (err e) i next g =
        if-Keeps (is_retryable e) _ _
          (>>=-Keeps p (pause i) (λ done. next)
            (if-Keeps (ltb (suc i) tries) (back_off i) _ (slept i) (pure-Keeps p tt)) (λ done. g))
          (lift-Keeps p _)

    retry_from-Keeps :
        {A : Type 0} (once : Action W A) (left i : ℕ)
        → Keeps R once
        → Keeps R (retry_from once left i)
    unfolding retry_from
    retry_from-Keeps once zero i g = lift-Keeps p _
    retry_from-Keeps once (suc left) i g =
        >>=-Keeps p _ _ (attempt-Keeps once g)
          (λ o. after_try-Keeps o i _ (retry_from-Keeps once left (suc i) g))

    -- The retries keep what each turn and each sleep keeps.
    pub retry-Keeps : {A : Type 0} (once : Action W A) → Keeps R once → Keeps R (retry once)
    unfolding retry
    retry-Keeps once g = retry_from-Keeps once tries 0 g

  module _ {A : Type 0} (P : A → W → Type 0) where
    retry_from-Returns :
        (once : Action W A) (left i : ℕ) → Returns P once → Returns P (retry_from once left i)
    unfolding retry_from ◌>>=◌ continue attempt after_try pure
    retry_from-Returns once zero i g = lift_err-Returns P exhausted
    retry_from-Returns once (suc left) i g = record {
      holds = λ w a h.
          turn (once w) (λ b k. g.holds w b k) (retry_from-Returns once left (suc i) g) a h;
    }
      where
        turn :
            (o : Result A × W)
            → ((b : A) → o.0 ≡ ok b → P b o.1)
            → Returns P (retry_from once left (suc i))
            → (a : A) → (after_try o.0 i (retry_from once left (suc i)) o.1).0 ≡ ok a
            → P a (after_try o.0 i (retry_from once left (suc i)) o.1).1
        turn (ok b, v) here later a h = here a h
        turn (err e, v) here later a h =
            (if-Returns P (is_retryable e) _ _
                (>>=-Returns P (pause i) (λ done. retry_from once left (suc i)) (λ done. later))
                (lift_err-Returns P e)).holds
              v a h

    pub retry-Returns : (once : Action W A) → Returns P once → Returns P (retry once)
    unfolding retry
    retry-Returns once g = retry_from-Returns once tries 0 g
