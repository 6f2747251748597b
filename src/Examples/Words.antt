-- ===== src/Examples/Words.antt =====
-- The API of the keyword dictionary, over a table in memory.
use mathlib.Core.List.Permᴰ
use emergency_contact.Prelude.{
  ℕ, suc, String, ◌≡◌, refl, Bool, true, false, Option, none, some, List, [], ◌∷◌, str_eq,
  if◌then◌else◌,
}
use emergency_contact.Prelude.Int.{pos, ◌+ℤ◌, ◌≤ℤ◌}
use emergency_contact.Python.Results.{ok, err, client_error}
use emergency_contact.Python.Values.{
  Value, int, str, dict, Fields, end, field, eq_text, get, is_truthy, mem,
}
use emergency_contact.Python.Actions.{◌>>=◌, continue, lift, pure, attempt}
use emergency_contact.Aws.Tables.{always, not_exists, set_field}
use emergency_contact.Aws.Rows.{Rows, or_key}
use emergency_contact.CycleApi.Request as Request
use emergency_contact.CycleApi.Request.{Library}
use emergency_contact.CycleApi.Routes.{is_value_error}
use emergency_contact.Dictionary.Snapshot.{to_snapshot, sort_all, empty_snapshot}
use emergency_contact.Dictionary.Changes as Changes
use emergency_contact.Dictionary.Changes.{Change, history_items, group, meta_key}
use emergency_contact.Dictionary.Api as Api
use emergency_contact.Dictionary.Api.{Services, created, lambda_handler, create_change}
use emergency_contact.Dictionary.Api.Versions.{Documented, VersionIs, Advances, Advances-IsPreorder}
use emergency_contact.Dictionary.Api.Advance.{lambda_handler-Advances}
use emergency_contact.Dictionary.Api.Stamps.{saved_version}
use emergency_contact.Dictionary.Api.Increasing.{versions_increase}
use emergency_contact.Dictionary.Api.Gap.{added_again}
use emergency_contact.Dictionary.Api.History.{none_left, named, history-snapshot}
use emergency_contact.Examples.Memory.{
  Memory, memory_table, memory_rows, answer, remove, update-Writes, update-Checked, remove-Removes,
  same_pair, same_pair_eq,
}

abbrev word_key : String × String → Fields
word_key k = field "category" (str k.0) (field "keyword" (str k.1) end)

-- The number counts the batches that the history got.
abbrev Words : Type 0
Words = Memory same_pair word_key

abbrev word_rows : Rows Words (String × String)
word_rows = memory_rows same_pair word_key

abbrev page_of : Option Fields → List Fields
page_of none = []
page_of (some row) = row ∷ []

abbrev words : Services Words
words = record {
  keywords = memory_table same_pair word_key;
  delete_item = remove same_pair word_key;
  scan = λ w. (ok (page_of (w.0 ("SAFE", "無事")) ∷ []), w);
  put_batch = λ rows w. (ok tt, (w.0, suc w.1));
  write_audit_log = λ event_type principal target extra w. (ok tt, w);
}

words-Documented : Documented word_rows words
words-Documented = record {
  gets_elsewhere = λ k w j. refl;
  puts = λ k test row. update-Writes same_pair word_key same_pair_eq k test (λ old. row);
  updates = update-Writes same_pair word_key same_pair_eq;
  update_checks = update-Checked same_pair word_key same_pair_eq;
  deletes = remove-Removes same_pair word_key same_pair_eq;
  scan_elsewhere = λ w j. refl;
  batch_elsewhere = λ rows w j. refl;
  log_elsewhere = λ event_type principal target extra w j. refl;
}

abbrev word_body : String → ℕ → Value
word_body keyword version = dict (
    field "category" (str "SAFE")
      (field "keyword" (str keyword) (field "expectedVersion" (int (pos version)) end)))

-- Two bodies that are read.
abbrev bodies : Library
bodies = record {
  loads = λ s. if str_eq s "first" then some (word_body "無事" 0) else some (word_body "元気" 1);
  text_of = λ v. "";
  int_of_text = λ s. none;
}

abbrev post : String → Fields
post body =
    field "httpMethod" (str "POST")
      (field "resource" (str "/keyword-dictionary") (field "body" (str body) end))

abbrev change_of : String → ℕ → Change
change_of keyword version = record {
  category = "SAFE";
  keyword = keyword;
  expected = int (pos version);
}

abbrev no_words : Words
no_words = (λ k. none, 0)

first_created :
    (lambda_handler words bodies (post "first") no_words).0
    ≡ ok (created (change_of "無事" 0) (pos 1))
unfolding lambda_handler ◌>>=◌ Api.principal_of lift Request.section_of Request.require_mapping pure
    attempt Api.answer Api.route eq_text get Api.post_keyword Request.parse_body is_truthy
    Request.loaded_dict Api.create_keyword always not_exists set_field is_value_error Api.audit
    create_change Api.increment_version Api.require_passed Api.scan_all_active Api.store_created
    Api.write_history_snapshot Changes.active_rows Changes.as_int Changes.change_extra
    Changes.has_version Changes.history_item history_items Changes.is_stored Changes.keyword_item
    Changes.parse_change Changes.require_category Changes.require_expected Changes.require_keyword
    Changes.version_condition Changes.with_item ◌+ℤ◌ continue mem or_key
first_created = refl

second_created :
    (lambda_handler words bodies
      (post "second")
      (lambda_handler words bodies (post "first") no_words).1).0
    ≡ ok (created (change_of "元気" 1) (pos 2))
unfolding lambda_handler ◌>>=◌ Api.principal_of lift Request.section_of Request.require_mapping pure
    attempt Api.answer Api.route eq_text get Api.post_keyword Request.parse_body is_truthy
    Request.loaded_dict Api.create_keyword always not_exists set_field is_value_error Api.audit
    create_change Api.increment_version Api.require_passed Api.scan_all_active Api.store_created
    Api.write_history_snapshot Changes.active_rows Changes.as_int Changes.change_extra
    Changes.has_version Changes.history_item history_items Changes.is_stored Changes.keyword_item
    Changes.parse_change Changes.require_category Changes.require_expected Changes.require_keyword
    Changes.version_condition Changes.with_item ◌+ℤ◌ continue mem or_key
second_created = refl

versions_increase_example : (pos 1 +ℤ pos 1) ≤ℤ pos 2
unfolding or_key saved_version
versions_increase_example =
    versions_increase word_rows words words-Documented bodies (post "first") (post "second")
      no_words (lambda_handler words bodies (post "first") no_words).1
      (created (change_of "無事" 0) (pos 1)) (created (change_of "元気" 1) (pos 2)) (pos 1) (pos 2) refl
      first_created refl
      ((Advances-IsPreorder word_rows).reflexive
        (lambda_handler words bodies (post "first") no_words).1)
      second_created refl

-- The version is 1, and the keyword stands.
abbrev stocked : Words
stocked = (
  λ k.
      if same_pair k meta_key
      then some (
          field "category" (str "META")
            (field "keyword" (str "META") (field "currentVersion" (int (pos 1)) end)))
      else some (word_key k),
  0,
)

abbrev to_two : Fields → Fields
to_two = set_field "currentVersion" (int (pos 1 +ℤ pos 1))

abbrev the_key : String × String
the_key = ("SAFE", "無事")

abbrev the_item : Fields → Fields
the_item row = Changes.keyword_item "SAFE" "無事" (pos 1 +ℤ pos 1)

answers :
    (w : Words) (k : String × String) (change : Fields → Fields) (b : Bool)
    → (c : Bool) × ((answer same_pair word_key w k change true b).0 ≡ ok c)
answers w k change true = (true, refl)
answers w k change false = (false, refl)

counts :
    (w : Words) (k : String × String) (change : Fields → Fields) (b : Bool)
    → (answer same_pair word_key w k change true b).1.1 ≡ w.1
counts w k change true = refl
counts w k change false = refl

added_again_example :
    ((create_change words bodies (str "a") (change_of "無事" 1) stocked).0
      ≡ err (client_error "ConditionalCheckFailedException"))
    × VersionIs (pos 1 +ℤ pos 1) (
        word_rows.row_at
          (create_change words bodies (str "a") (change_of "無事" 1) stocked).1
          meta_key)
    × ((create_change words bodies (str "a") (change_of "無事" 1) stocked).1.1 ≡ 0)
unfolding mem Changes.as_int
added_again_example =
    added_again (λ w. w.1) word_rows words words-Documented bodies (str "a") (change_of "無事" 1)
      stocked (pos 1) refl (_, refl, refl, refl) refl (_, refl, refl)
      (λ w. answers w meta_key to_two _) (λ w. answers w the_key the_item _)
      (update-Checked same_pair word_key same_pair_eq _ _ _) (λ w. counts w meta_key to_two _)
      (λ w. counts w the_key the_item _)

abbrev listed_rows : List Fields
listed_rows = word_key ("SAFE", "無事") ∷ word_key ("INJURED", "けが") ∷ []

history-snapshot_example :
    to_snapshot (history_items (pos 3) listed_rows) ≡ sort_all (group empty_snapshot listed_rows)
unfolding get
history-snapshot_example =
    history-snapshot (pos 3) listed_rows (history_items (pos 3) listed_rows)
      (named _ _ (λ e. cc) (named _ _ (λ e. cc) none_left))
      (Permᴰ.refl (history_items (pos 3) listed_rows))

lambda_handler-Advances_example :
    Advances word_rows stocked (lambda_handler words bodies (post "first") stocked).1
lambda_handler-Advances_example =
    lambda_handler-Advances word_rows words words-Documented bodies (post "first") stocked
