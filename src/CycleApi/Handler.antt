-- ===== src/CycleApi/Handler.antt =====
-- backend/lambdas/cycle_api/handler.py: the start of a cycle. A reply stands for its response; the
-- log messages and the texts of the errors are left out.
use Prim.Native.String.{◌++◌}
use emergency_contact.Prelude.{
  String, Bool, true, false, not, ◌&&◌, Option, none, some, List, [], ◌∷◌, str_eq, if◌then◌else◌,
}
use emergency_contact.Prelude.Int.{ℤ, pos}
use emergency_contact.Python.Results.{Result, ok, err, Error, client_error, key_error}
use emergency_contact.Python.Values.{
  Value, null, int, str, list, dict, Fields, end, field, get_or, lookup, is_truthy, eq_text,
}
use emergency_contact.Python.Actions.{Action, pure, lift, attempt, ◌>>=◌}
use emergency_contact.Aws.Tables.{Table, set_field, always}
use emergency_contact.Cycle.Exclusivity.{can_start_cycle}
use emergency_contact.Dictionary.ActiveCount.{is_dictionary_empty}
use emergency_contact.Finalizer.Handler.{rows_value}
use emergency_contact.CycleApi.Request.{Library, Defaults, Order, parse_order, read_int, int_of}

-- The calls of the handler. A query with a limit of one delivers at most one row, a scan its pages.
pub record Services (W : Type 0) : Type 0 where
  pub now_iso : Action W String
  pub uuid4 : Action W String
  pub query_category : String → Action W (List Fields)
  pub query_running : Action W (List Fields)
  pub get_meta : Action W (Option Fields)
  pub cycles : Table W String
  pub scan_cycles : Action W (List (List Fields))
  pub start_execution : String → Value → Action W (Unit {0})
  pub write_audit_log : String → String → Action W (Unit {0})

-- The responses, by their status and body. `not_allowed` is 405, `bad_request` 400.
pub data Reply : Type 0 where
  dictionary_empty conflict : Reply
  replayed : Fields → ℤ → Reply
  start_failed : String → Reply
  created : String → Order → String → ℤ → Reply
  listed : List (Fields × ℤ) → Reply
  detail : Fields → Reply
  snapshot : Value → String → ℤ → Reply
  not_found : String → Reply
  not_allowed bad_request : Reply

-- isinstance(v, str) and v
unfoldable pub given_text : Value → Bool
given_text (str s) = not (str_eq s "")
given_text _ = false

unfoldable pub with_field : Bool → String → Value → Fields → Fields
with_field false name v d = d
with_field true name v d = set_field name v d

-- The row of a new cycle.
unfoldable pub cycle_item : String → Order → ℤ → String → Fields
cycle_item cycle_id order version started_at =
    with_field (given_text order.referenced_cycle_id) "referencedCycleId" order.referenced_cycle_id
      (with_field (is_truthy order.idempotency_key) "idempotencyKey" order.idempotency_key (
        field "cycleId" (str cycle_id) (
          field "status" (str "RUNNING") (
            field "mode" order.mode (
              field "retryCount" order.retry_count (
                field "retryIntervalMinutes" order.retry_interval (
                  field "dictionaryVersion" (int version)
                    (field "startedAt" (str started_at) end))))))))

unfoldable pub sfn_input : String → Order → ℤ → Value
sfn_input cycle_id order version = dict (
    with_field (given_text order.referenced_cycle_id) "referencedCycleId" order.referenced_cycle_id
      (field "cycleId" (str cycle_id) (
        field "mode" order.mode (
          field "retryCount" order.retry_count (
            field "retryIntervalMinutes" order.retry_interval
              (field "dictionaryVersion" (int version) (field "referencedCycleId" null end)))))))

-- rows[0]
unfoldable pub first_row : List Fields → Result Fields
first_row [] = err key_error
first_row (row ∷ rows) = ok row

unfoldable pub is_client_error : Error → Bool
is_client_error (client_error code) = true
is_client_error _ = false

module _ {W : Type 0} (s : Services W) (lib : Library) (defaults : Defaults) where
  unfoldable pub version_in : Option Fields → Result ℤ
  version_in none = ok (pos 0)
  version_in (some item) =
      read_int (lib.int_of_text (lib.text_of (get_or (lookup "currentVersion" item) (int (pos 0)))))

  unfoldable pub get_dict_version : Action W ℤ
  get_dict_version = do item ← s.get_meta; lift (version_in item)

  unfoldable pub is_active_dictionary_empty : Action W Bool
  is_active_dictionary_empty = do
    safe_items ← s.query_category "SAFE"
    injured_items ← s.query_category "INJURED"
    unavailable_items ← s.query_category "UNAVAILABLE"
    pure (is_dictionary_empty safe_items injured_items unavailable_items)

  -- The replay of the request that the running cycle has come from.
  unfoldable pub is_replay : Order → Fields → Bool
  is_replay order existing =
      is_truthy order.idempotency_key
      && eq_text order.idempotency_key
          (lib.text_of (get_or (lookup "idempotencyKey" existing) (str "")))

  unfoldable pub replay : Fields → Action W Reply
  replay existing = do
    version ← lift (int_of lib (get_or (lookup "dictionaryVersion" existing) (int (pos 0))))
    pure (replayed existing version)

  unfoldable pub reject_running : Fields → Action W Reply
  reject_running existing = do
    written ←
        s.write_audit_log "CYCLE_START_REJECTED"
          (lib.text_of (get_or (lookup "cycleId" existing) (str "<unknown>")))
    pure conflict

  unfoldable pub refuse : Order → List Fields → Action W Reply
  refuse order existing_cycles = do
    existing ← lift (first_row existing_cycles)
    if is_replay order existing then replay existing else reject_running existing

  unfoldable pub after_start : String → Order → String → ℤ → Result (Unit {0}) → Action W Reply
  after_start cycle_id order started_at version (ok started) = do
    written ← s.write_audit_log "CYCLE_START" cycle_id
    pure (created cycle_id order started_at version)
  after_start cycle_id order started_at version (err e) =
      if is_client_error e
      then (do
        failed ← s.cycles.update_item cycle_id always (set_field "status" (str "START_FAILED"))
        pure (start_failed cycle_id))
      else lift (err e)

  unfoldable pub start : Order → Action W Reply
  start order = do
    version ← get_dict_version
    cycle_id ← s.uuid4
    started_at ← s.now_iso
    put ← s.cycles.put_item cycle_id always (cycle_item cycle_id order version started_at)
    started ← attempt (s.start_execution ("cycle-" ++ cycle_id) (sfn_input cycle_id order version))
    after_start cycle_id order started_at version started

  unfoldable pub reject_empty : Action W Reply
  reject_empty = do
    written ← s.write_audit_log "CYCLE_START_REJECTED" "dictionary_empty"
    pure dictionary_empty

  unfoldable pub start_if_free : Order → Action W Reply
  start_if_free order = do
    existing_cycles ← s.query_running
    free ← lift (can_start_cycle (list (rows_value existing_cycles)))
    if not free then refuse order existing_cycles else start order

  unfoldable pub create_cycle : Fields → Fields → Action W Reply
  create_cycle body headers = do
    order ← lift (parse_order defaults body headers)
    is_empty ← is_active_dictionary_empty
    if is_empty then reject_empty else start_if_free order
