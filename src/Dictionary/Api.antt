-- ===== src/Dictionary/Api.antt =====
-- backend/lambdas/dictionary_api/handler.py: the API of the keyword dictionary. A reply stands for its
-- response; the log messages and the texts of the errors are left out.
pub mod Versions
pub mod Cases
pub mod Advance
pub mod Stamps
pub mod Increasing
pub mod Gap
pub mod History
use Prim.Native.String.{◌++◌}
use emergency_contact.Prelude.{
  String, Bool, true, false, ◌&&◌, Option, none, some, List, [], ◌∷◌, str_eq, if◌then◌else◌,
}
use emergency_contact.Prelude.Int.{ℤ, pos, ◌+ℤ◌}
use emergency_contact.Python.Results.{Result, ok, err, Error, client_error, value_error}
use emergency_contact.Python.Values.{
  Value, int, str, dict, Fields, end, field, get, get_or, lookup, eq_text,
}
use emergency_contact.Python.Actions.{Action, pure, lift, attempt, ◌>>=◌}
use emergency_contact.Aws.Tables.{Table, set_field, not_exists, always}
use emergency_contact.Keyword.Handler.{rows_of}
use emergency_contact.CycleApi.Request.{Library, parse_body, section_of, read_int}
use emergency_contact.CycleApi.Routes.{is_value_error, or_fields}
use emergency_contact.Dictionary.Snapshot.{Snapshot, empty_snapshot}
use emergency_contact.Dictionary.Changes.{
  Change, meta_key, parse_change, as_int, version_condition, exists_category, keyword_item,
  active_rows, history_items, group, change_extra,
}

-- The calls of the handler. A scan delivers its pages, and `put_batch` is the batch writer of the
-- history. A conditional delete answers false where its condition fails.
pub record Services (W : Type 0) : Type 0 where
  pub keywords : Table W (String × String)
  pub delete_item : String × String → (Option Fields → Bool) → Action W Bool
  pub scan : Action W (List (List Fields))
  pub put_batch : List Fields → Action W (Unit {0})
  pub write_audit_log : String → Value → String → Fields → Action W (Unit {0})

-- The responses, by their status and body. `created` is 201, `changed` 200 with a version of a keyword,
-- `conflict` 409, `not_allowed` 405, `bad_request` 400.
pub data Reply : Type 0 where
  listed : Snapshot → Reply
  current : ℤ → Reply
  created changed : Change → ℤ → Reply
  conflict not_allowed bad_request : Reply

-- A conditional write of boto3 raises where its condition fails.
unfoldable pub require_passed : Bool → Result (Unit {0})
require_passed true = ok tt
require_passed false = err (client_error "ConditionalCheckFailedException")

unfoldable pub require_existing : Option Fields → Result Fields
require_existing none = err value_error
require_existing (some row) = ok row

-- method == … and resource == …
abbrev pub is_route : Fields → String → String → Bool
is_route event method resource =
    eq_text (get "httpMethod" event) method && eq_text (get "resource" event) resource

-- event.get("requestContext", {}).get("authorizer", {}).get("claims", {}).get("sub", "<unknown>")
unfoldable pub principal_of : {W : Type 0} → Fields → Action W Value
principal_of event = do
  context ← lift (section_of "requestContext" event)
  authorizer ← lift (section_of "authorizer" context)
  claims ← lift (section_of "claims" authorizer)
  pure (get_or (lookup "sub" claims) (str "<unknown>"))

module _ {W : Type 0} (s : Services W) (lib : Library) where
  -- int(str(row.get(name, 0)))
  unfoldable pub stored_int : String → Fields → Result ℤ
  stored_int name row =
      read_int (lib.int_of_text (lib.text_of (get_or (lookup name row) (int (pos 0)))))

  unfoldable pub current_version : Option Fields → Result ℤ
  current_version none = ok (pos 0)
  current_version (some row) = stored_int "currentVersion" row

  unfoldable pub get_current_version : Action W ℤ
  get_current_version = do item ← s.keywords.get_item meta_key; lift (current_version item)

  unfoldable pub increment_version : Value → Action W ℤ
  increment_version expected = do
    passed ←
        s.keywords.update_item meta_key (version_condition expected)
          (set_field "currentVersion" (int (as_int expected +ℤ pos 1)))
    done ← lift (require_passed passed)
    pure (as_int expected +ℤ pos 1)

  unfoldable pub scan_all_active : Action W (List Fields)
  scan_all_active = do pages ← s.scan; pure (active_rows (rows_of pages))

  unfoldable pub list_all : Action W Snapshot
  list_all = do rows ← scan_all_active; pure (group empty_snapshot rows)

  unfoldable pub write_history_snapshot : ℤ → Action W (Unit {0})
  write_history_snapshot new_version = do
    active ← scan_all_active
    s.put_batch (history_items new_version active)

  unfoldable pub audit : String → Value → Change → Fields → Action W (Unit {0})
  audit event_type principal p extra =
      s.write_audit_log event_type principal (p.category ++ "#" ++ p.keyword) extra

  -- The steps after the new version.
  unfoldable pub store_created : Value → Change → ℤ → Action W Reply
  store_created principal p new_version = do
    passed ←
        s.keywords.put_item (p.category, p.keyword) (not_exists "category")
          (keyword_item p.category p.keyword new_version)
    done ← lift (require_passed passed)
    written ← write_history_snapshot new_version
    logged ← audit "DICTIONARY_ADD" principal p (change_extra p new_version)
    pure (created p new_version)

  unfoldable pub create_change : Value → Change → Action W Reply
  create_change principal p = do
    new_version ← increment_version p.expected
    store_created principal p new_version

  unfoldable pub create_keyword : Fields → Value → Action W Reply
  create_keyword body principal = do p ← lift (parse_change body body); create_change principal p

  unfoldable pub store_changed : Value → Change → Fields → ℤ → Action W Reply
  store_changed principal p existing new_version = do
    updated ←
        s.keywords.update_item (p.category, p.keyword) always
          (set_field "version" (int new_version))
    written ← write_history_snapshot new_version
    old ← lift (stored_int "version" existing)
    logged ←
        audit "DICTIONARY_UPDATE" principal p
          (set_field "oldValue" (dict (field "version" (int old) end)) (change_extra p new_version))
    pure (changed p new_version)

  unfoldable pub update_change : Value → Change → Action W Reply
  update_change principal p = do
    item ← s.keywords.get_item (p.category, p.keyword)
    existing ← lift (require_existing item)
    new_version ← increment_version p.expected
    store_changed principal p existing new_version

  unfoldable pub update_keyword : Fields → Fields → Value → Action W Reply
  update_keyword path_params body principal = do
    p ← lift (parse_change path_params body)
    update_change principal p

  unfoldable pub store_deleted : Value → Change → ℤ → Action W Reply
  store_deleted principal p new_version = do
    passed ← s.delete_item (p.category, p.keyword) exists_category
    done ← lift (require_passed passed)
    written ← write_history_snapshot new_version
    logged ← audit "DICTIONARY_DELETE" principal p (change_extra p new_version)
    pure (changed p new_version)

  unfoldable pub delete_change : Value → Change → Action W Reply
  delete_change principal p = do
    new_version ← increment_version p.expected
    store_deleted principal p new_version

  unfoldable pub delete_keyword : Fields → Fields → Value → Action W Reply
  delete_keyword path_params body principal = do
    p ← lift (parse_change path_params body)
    delete_change principal p

  unfoldable pub get_list : Action W Reply
  get_list = do grouped ← list_all; pure (listed grouped)

  unfoldable pub get_version : Action W Reply
  get_version = do version ← get_current_version; pure (current version)

  unfoldable pub post_keyword : Fields → Value → Action W Reply
  post_keyword event principal = do
    body ← lift (parse_body lib (get "body" event))
    create_keyword body principal

  unfoldable pub with_path :
      (Fields → Fields → Value → Action W Reply) → Fields → Value → Action W Reply
  with_path change event principal = do
    body ← lift (parse_body lib (get "body" event))
    path_params ← lift (or_fields (get "pathParameters" event))
    change path_params body principal

  unfoldable pub route : Fields → Value → Action W Reply
  route event principal =
      if is_route event "GET" "/keyword-dictionary"
      then get_list
      else if is_route event "GET" "/keyword-dictionary/version"
      then get_version
      else if is_route event "POST" "/keyword-dictionary"
      then post_keyword event principal
      else if is_route event "PATCH" "/keyword-dictionary/{category}/{keyword}"
      then with_path update_keyword event principal
      else if is_route event "DELETE" "/keyword-dictionary/{category}/{keyword}"
      then with_path delete_keyword event principal
      else pure not_allowed

  -- except ValueError, except ClientError
  unfoldable pub answer : Result Reply → Action W Reply
  answer (ok reply) = pure reply
  answer (err (client_error code)) =
      if str_eq code "ConditionalCheckFailedException"
      then pure conflict
      else lift (err (client_error code))
  answer (err e) = if is_value_error e then pure bad_request else lift (err e)

  unfoldable pub lambda_handler : Fields → Action W Reply
  lambda_handler event = do
    principal ← principal_of event
    reply ← attempt (route event principal)
    answer reply
