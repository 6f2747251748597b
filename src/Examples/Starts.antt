-- ===== src/Examples/Starts.antt =====
-- The start of a cycle over services in memory.
use emergency_contact.Prelude.{String, ◌≡◌, refl, none, some, [], ◌∷◌, str_eq, eq_iff}
use emergency_contact.Prelude.Int.{pos}
use emergency_contact.Python.Results.{ok}
use emergency_contact.Python.Values.{Value, null, str, int, Fields, end, field}
use emergency_contact.Aws.Rows.{Rows}
use emergency_contact.CycleApi.Request.{Library, Defaults, Order}
use emergency_contact.CycleApi.Handler.{Services, Reply, created, create_cycle}
use emergency_contact.CycleApi.Created.{Documented, Outcome, create_cycle-Outcome}
use emergency_contact.CycleApi.Handler as OfHandler
use emergency_contact.CycleApi.Request as OfRequest
use emergency_contact.Python.Actions as OfActions
use emergency_contact.Python.Values as OfValues
use emergency_contact.Aws.Tables as OfTables
use emergency_contact.Cycle.Exclusivity as OfExclusivity
use emergency_contact.Dictionary.ActiveCount as OfActiveCount
use emergency_contact.Cycle.Finalize as OfFinalize
use emergency_contact.Examples.Memory.{Memory, memory_table, memory_rows, update-Writes}

abbrev id_item : String → Fields
id_item k = field "cycleId" (str k) end

abbrev Store : Type 0
Store = Memory str_eq id_item

abbrev services : Services Store
services = record {
  now_iso = λ w. (ok "2026-01-01T00:00:00Z", w);
  uuid4 = λ w. (ok "C1", w);
  query_category = λ c w. (ok (field "keyword" (str "ok") end ∷ []), w);
  query_running = λ w. (ok [], w);
  get_meta = λ w. (ok none, w);
  cycles = memory_table str_eq id_item;
  scan_cycles = λ w. (ok [], w);
  start_execution = λ n v w. (ok tt, w);
  write_audit_log = λ e u w. (ok tt, w);
}

abbrev rows : Rows Store String
rows = memory_rows str_eq id_item

services-Documented : Documented rows services
services-Documented = record {
  updates = update-Writes str_eq id_item (λ j k. (eq_iff j k).0);
  puts = λ k test row. update-Writes str_eq id_item (λ j i. (eq_iff j i).0) k test (λ old. row);
  now_elsewhere = λ w j. refl;
  uuid_elsewhere = λ w j. refl;
  category_elsewhere = λ c w j. refl;
  running_elsewhere = λ w j. refl;
  meta_elsewhere = λ w j. refl;
  start_elsewhere = λ n v w j. refl;
  audit_elsewhere = λ e u w j. refl;
}

abbrev library : Library
library = record { loads = λ raw. none; text_of = λ v. "0"; int_of_text = λ s. some (pos 0) }

abbrev defaults : Defaults
defaults = record { retry_count = pos 3; retry_interval_minutes = pos 5 }

abbrev body : Fields
body = field "mode" (str "ALL") end

abbrev order : Order
order = record {
  mode = str "ALL";
  retry_count = int (pos 3);
  retry_interval = int (pos 5);
  referenced_cycle_id = null;
  idempotency_key = str "";
}

abbrev empty_table : Store
empty_table = ((λ k. none), 0)

abbrev reply : Reply
reply = created "C1" order "2026-01-01T00:00:00Z" (pos 0)

starts : (create_cycle services library defaults body end empty_table).0 ≡ ok reply
unfolding OfExclusivity.none_running OfHandler.version_in OfHandler.get_dict_version
    OfHandler.is_active_dictionary_empty OfHandler.after_start OfHandler.start
    OfHandler.start_if_free OfHandler.create_cycle OfRequest.or_value OfRequest.idempotency_key_from
    OfRequest.require_between OfRequest.parse_order OfActions.◌>>=◌ OfActions.lift OfActions.pure
    OfActions.attempt OfValues.get OfValues.is_truthy OfValues.mem OfValues.in_set OfTables.always
    OfExclusivity.can_start_cycle OfActiveCount.is_dictionary_empty OfFinalize.require_list
starts = refl

create_cycle-Outcome_example :
    Outcome rows services services-Documented library defaults empty_table reply
      (create_cycle services library defaults body end empty_table).1
create_cycle-Outcome_example =
    create_cycle-Outcome rows services services-Documented library defaults body end empty_table
      reply starts
