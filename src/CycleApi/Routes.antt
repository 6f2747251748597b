-- ===== src/CycleApi/Routes.antt =====
-- backend/lambdas/cycle_api/handler.py: the routes of the cycles.
use emergency_contact.Prelude.{
  String, Bool, true, false, ◌&&◌, Option, none, some, List, [], ◌∷◌, str_eq, if◌then◌else◌,
}
use emergency_contact.Prelude.Int.{ℤ, pos}
use emergency_contact.Python.Results.{Result, ok, err, Error, value_error}
use emergency_contact.Python.Values.{
  Value, int, str, Fields, end, get, get_or, lookup, is_truthy, eq_text,
}
use emergency_contact.Python.Order.{text_lt}
use emergency_contact.Python.Sorting.{sort}
use emergency_contact.Python.Actions.{Action, pure, lift, attempt, ◌>>=◌}
use emergency_contact.Keyword.Handler.{rows_of}
use emergency_contact.CycleApi.Request.{
  Library, Defaults, parse_body, principal_from, read_int, int_of, require_mapping,
}
use emergency_contact.CycleApi.Handler.{
  Services, Reply, listed, detail, snapshot, not_found, not_allowed, bad_request, create_cycle,
}

unfoldable pub is_value_error : Error → Bool
is_value_error value_error = true
is_value_error _ = false

-- d.get("id"), a text that is not empty
unfoldable pub require_path_id : Value → Result String
require_path_id (str s) = if str_eq s "" then err value_error else ok s
require_path_id _ = err value_error

-- v or {}
unfoldable pub or_fields : Value → Result Fields
or_fields v = if is_truthy v then require_mapping v else ok end

module _ {W : Type 0} (s : Services W) (lib : Library) (defaults : Defaults) where
  unfoldable pub started_key : Fields → String
  started_key item = lib.text_of (get_or (lookup "startedAt" item) (str ""))

  -- The test of the descending sort.
  unfoldable pub started_later : Fields → Fields → Bool
  started_later a b = text_lt (started_key b) (started_key a)

  unfoldable pub summaries : List Fields → Result (List (Fields × ℤ))
  summaries [] = ok []
  summaries (it ∷ items) =
      elim (int_of lib (get_or (lookup "dictionaryVersion" it) (int (pos 0)))) [
        | err e ↦ err e
        | ok version ↦ elim (summaries items) [
          | err e ↦ err e
          | ok rest ↦ ok ((it, version) ∷ rest)
        ]
      ]

  unfoldable pub list_cycles : Action W Reply
  list_cycles = do
    pages ← s.scan_cycles
    summary ← lift (summaries (sort started_later (rows_of pages)))
    pure (listed summary)

  unfoldable pub detail_of : String → Option Fields → Reply
  detail_of cycle_id none = not_found cycle_id
  detail_of cycle_id (some item) = detail item

  unfoldable pub get_cycle_detail : Fields → Action W Reply
  get_cycle_detail path_params = do
    cycle_id ← lift (require_path_id (get "id" path_params))
    item ← s.cycles.get_item cycle_id
    pure (detail_of cycle_id item)

  unfoldable pub status_of : String → Option Fields → Result Reply
  status_of cycle_id none = ok (not_found cycle_id)
  status_of cycle_id (some cycle) =
      elim (read_int
        (lib.int_of_text (lib.text_of (get_or (lookup "targetCount" cycle) (int (pos 0)))))) [
          | err e ↦ err e
          | ok target_count ↦ ok (
              snapshot (get "cycleId" cycle)
                (lib.text_of (get_or (lookup "status" cycle) (str "RUNNING"))) target_count)
        ]

  unfoldable pub get_cycle_status : Fields → Action W Reply
  get_cycle_status path_params = do
    cycle_id ← lift (require_path_id (get "id" path_params))
    cycle ← s.cycles.get_item cycle_id
    lift (status_of cycle_id cycle)

  unfoldable pub post_cycle : Fields → Action W Reply
  post_cycle event = do
    body ← lift (parse_body lib (get "body" event))
    headers ← lift (or_fields (get "headers" event))
    create_cycle s lib defaults body headers

  unfoldable pub with_path : (Fields → Action W Reply) → Fields → Action W Reply
  with_path route event = do
    path_params ← lift (or_fields (get "pathParameters" event))
    route path_params

  unfoldable pub route : Fields → Action W Reply
  route event =
      let method = get "httpMethod" event in
      let resource = get "resource" event in
      if eq_text method "POST" && eq_text resource "/cycles"
      then post_cycle event
      else if eq_text method "GET" && eq_text resource "/cycles"
      then list_cycles
      else if eq_text method "GET" && eq_text resource "/cycles/{id}"
      then with_path get_cycle_detail event
      else if eq_text method "GET" && eq_text resource "/cycles/{id}/status"
      then with_path get_cycle_status event
      else pure not_allowed

  -- except ValueError
  unfoldable pub answer : Result Reply → Action W Reply
  answer (ok reply) = pure reply
  answer (err e) = if is_value_error e then pure bad_request else lift (err e)

  unfoldable pub lambda_handler : Fields → Action W Reply
  lambda_handler event = do
    principal ← lift (principal_from lib event)
    reply ← attempt (route event)
    answer reply
