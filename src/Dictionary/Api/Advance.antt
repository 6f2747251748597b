-- ===== src/Dictionary/Api/Advance.antt =====
-- No request to the API of the keyword dictionary lowers its version.
use emergency_contact.Prelude.{String, ◌≡◌, ◌≢◌, true}
use emergency_contact.Prelude.Int.{ℤ}
use emergency_contact.Python.Results.{Result, ok, err, client_error}
use emergency_contact.Python.Values.{Value, Fields, mem}
use emergency_contact.Python.Actions.{
  Action, pure, lift, ◌>>=◌, Keeps, >>=-Keeps, lift->>=-Keeps, pure-Keeps, lift-Keeps, if-Keeps,
  attempt-Keeps,
}
use emergency_contact.Aws.Rows.{Rows, Elsewhere}
use emergency_contact.CycleApi.Request.{Library, parse_body}
use emergency_contact.Dictionary.Snapshot.{valid_categories}
use emergency_contact.Dictionary.Changes.{Change, meta_key, parse_change}
use emergency_contact.Dictionary.Api.{
  Services, Reply, principal_of, get_current_version, increment_version, scan_all_active, list_all,
  write_history_snapshot, audit, store_created, store_changed, store_deleted, create_change,
  create_keyword, update_change, update_keyword, delete_change, delete_keyword, get_list,
  get_version, post_keyword, with_path, route, answer, lambda_handler,
}
use emergency_contact.Dictionary.Api.Cases.{route_holds}
use emergency_contact.Dictionary.Api.Versions.{
  Documented, Advances, Advances-IsPreorder, Beside-Advances, write-Beside, delete-Beside,
  update_version-Advances, not_meta, parse_change-Valid,
}

module _ {W : Type 0} (t : Rows W (String × String)) (s : Services W) (d : Documented t s)
    (lib : Library) where
  keep :
      {A B : Type 0} (m : Action W A) (f : A → Action W B)
      → Keeps (Advances t) m
      → ((a : A) → Keeps (Advances t) (f a))
      → Keeps (Advances t) (m >>= f)
  keep = >>=-Keeps (Advances-IsPreorder t)

  keep_pure : {A : Type 0} (a : A) → Keeps (Advances t) (pure a)
  keep_pure = pure-Keeps (Advances-IsPreorder t)

  keep_lift : {A : Type 0} (r : Result A) → Keeps (Advances t) (lift r)
  keep_lift = lift-Keeps (Advances-IsPreorder t)

  leave : {A : Type 0} (m : Action W A) → Elsewhere t m → Keeps (Advances t) m
  leave m u = Beside-Advances t m (λ w. u w meta_key)

  pub increment-Advances :
      (expected : Value) → Keeps (Advances t) (increment_version s lib expected)
  unfolding increment_version
  increment-Advances expected =
      keep _ _ (update_version-Advances t s d lib expected)
        (λ passed. keep _ _ (keep_lift _) (λ done. keep_pure _))

  scan-Advances : Keeps (Advances t) (scan_all_active s lib)
  unfolding scan_all_active
  scan-Advances = keep _ _ (leave _ d.scan_elsewhere) (λ pages. keep_pure _)

  snapshot-Advances : (version : ℤ) → Keeps (Advances t) (write_history_snapshot s lib version)
  unfolding write_history_snapshot
  snapshot-Advances version = keep _ _ scan-Advances (λ active. leave _ (d.batch_elsewhere _))

  audit-Advances :
      (event_type : String) (principal : Value) (p : Change) (extra : Fields)
      → Keeps (Advances t) (audit s lib event_type principal p extra)
  unfolding audit
  audit-Advances event_type principal p extra = leave _ (d.log_elsewhere _ _ _ _)

  module _ (principal : Value) (p : Change) (valid : mem p.category valid_categories ≡ true) where
    other_key : (p.category, p.keyword) ≢ meta_key
    other_key = not_meta p.category p.keyword valid

    pub store_created-Advances : (v : ℤ) → Keeps (Advances t) (store_created s lib principal p v)
    unfolding store_created
    store_created-Advances v =
        keep _ _ (Beside-Advances t _ (write-Beside t s d lib _ _ _ _ other_key (d.puts _ _ _)))
          (λ passed. keep _ _ (keep_lift _) (λ done.
            keep _ _ (snapshot-Advances v)
              (λ written. keep _ _ (audit-Advances _ _ p _) (λ logged. keep_pure _))))

    pub store_changed-Advances :
        (row : Fields) (v : ℤ) → Keeps (Advances t) (store_changed s lib principal p row v)
    unfolding store_changed
    store_changed-Advances row v =
        keep _ _ (Beside-Advances t _ (write-Beside t s d lib _ _ _ _ other_key (d.updates _ _ _)))
          (λ updated. keep _ _ (snapshot-Advances v) (λ written.
            keep _ _ (keep_lift _)
              (λ old. keep _ _ (audit-Advances _ _ p _) (λ logged. keep_pure _))))

    pub store_deleted-Advances : (v : ℤ) → Keeps (Advances t) (store_deleted s lib principal p v)
    unfolding store_deleted
    store_deleted-Advances v =
        keep _ _ (Beside-Advances t _ (delete-Beside t s d lib _ _ other_key)) (λ passed.
          keep _ _ (keep_lift _) (λ done.
            keep _ _ (snapshot-Advances v)
              (λ written. keep _ _ (audit-Advances _ _ p _) (λ logged. keep_pure _))))

    create_change-Advances : Keeps (Advances t) (create_change s lib principal p)
    unfolding create_change
    create_change-Advances = keep _ _ (increment-Advances p.expected) store_created-Advances

    update_change-Advances : Keeps (Advances t) (update_change s lib principal p)
    unfolding update_change
    update_change-Advances = keep _ _ (leave _ (d.gets_elsewhere _)) (λ item.
        keep _ _ (keep_lift _)
          (λ existing. keep _ _ (increment-Advances p.expected) (store_changed-Advances existing)))

    delete_change-Advances : Keeps (Advances t) (delete_change s lib principal p)
    unfolding delete_change
    delete_change-Advances = keep _ _ (increment-Advances p.expected) store_deleted-Advances

  parsed :
      (place body : Fields) (f : Change → Action W Reply)
      → ((p : Change) → mem p.category valid_categories ≡ true → Keeps (Advances t) (f p))
      → Keeps (Advances t) (lift (parse_change place body) >>= f)
  parsed place body f g =
      lift->>=-Keeps (Advances-IsPreorder t) _ f (λ p e. g p (parse_change-Valid place body p e))

  with_path-Advances :
      (change : Fields → Fields → Value → Action W Reply) (event : Fields) (principal : Value)
      → ((path body : Fields) → Keeps (Advances t) (change path body principal))
      → Keeps (Advances t) (with_path s lib change event principal)
  unfolding with_path
  with_path-Advances change event principal g =
      keep _ _ (keep_lift (parse_body lib _)) (λ body. keep _ _ (keep_lift _) (λ path. g path body))

  get_list-Advances : Keeps (Advances t) (get_list s lib)
  unfolding get_list list_all
  get_list-Advances = keep _ _ (keep _ _ scan-Advances (λ rows. keep_pure _)) (λ g. keep_pure _)

  get_version-Advances : Keeps (Advances t) (get_version s lib)
  unfolding get_version get_current_version
  get_version-Advances =
      keep _ _ (keep _ _ (leave _ (d.gets_elsewhere _)) (λ item. keep_lift _)) (λ v. keep_pure _)

  route-Advances :
      (event : Fields) (principal : Value) → Keeps (Advances t) (route s lib event principal)
  unfolding post_keyword create_keyword update_keyword delete_keyword
  route-Advances event principal =
      route_holds (Keeps (Advances t)) s lib event principal get_list-Advances get_version-Advances
        (keep _ _ (keep_lift (parse_body lib _))
          (λ body. parsed body body _ (create_change-Advances principal)))
        (with_path-Advances (update_keyword s lib) event principal
          (λ path body. parsed path body _ (update_change-Advances principal)))
        (with_path-Advances (delete_keyword s lib) event principal
          (λ path body. parsed path body _ (delete_change-Advances principal)))
        (keep_pure _)

  answer-Advances : (o : Result Reply) → Keeps (Advances t) (answer s lib o)
  unfolding answer
  answer-Advances (ok r) = keep_pure r
  answer-Advances (err (client_error code)) = if-Keeps _ _ _ (keep_pure _) (keep_lift _)
  answer-Advances (err _) = if-Keeps _ _ _ (keep_pure _) (keep_lift _)

  -- No request to the API of the keyword dictionary lowers its version, also where the run raises. The
  -- services are any that act on the table of the keywords as documented.
  pub lambda_handler-Advances :
      (event : Fields) (w : W) → Advances t w (lambda_handler s lib event w).1
  unfolding lambda_handler principal_of
  lambda_handler-Advances event w =
      (keep _ _
          (keep _ _ (keep_lift _) (λ context.
            keep _ _ (keep_lift _) (λ authorizer. keep _ _ (keep_lift _) (λ claims. keep_pure _))))
          (λ principal.
            keep _ _ (attempt-Keeps _ (route-Advances event principal)) answer-Advances)).run
        w
