-- ===== src/Inbound/Items.antt =====
-- What the inbound handler of backend/lambdas/inbound_handler/handler.py writes and replies.
use Prim.Native.Char.{code}
use Prim.Native.String.{◌++◌}
use emergency_contact.Prelude.{
  ℕ, String, Bool, false, ◌&&◌, ◌==◌, not, Option, none, some, List, [], ◌∷◌, if◌then◌else◌,
}
use emergency_contact.Prelude.Int.{pos}
use emergency_contact.Python.Results.{Result, ok, err, key_error, assertion_error, ◌>>=◌}
use emergency_contact.Python.Values.{
  Value, null, int, str, list, dict, Items, nil, cons, Fields, end, field, get, lookup, eq_text,
}
use emergency_contact.Python.Texts.{codes}
use emergency_contact.Aws.Tables.{set_field, is_missing}
use emergency_contact.Audit.Mask.{mask_phone}
use emergency_contact.Employee.Visibility.{is_visible}
use emergency_contact.Inbound.Selection.{Flow, active_cycle}
use emergency_contact.Inbound.Events.{Identify, flow_name}

-- The employee and the cycle are given where the flow is ACTIVE_CYCLE. The status of a reply to the
-- second step is "ok".
pub data Reply : Type 0 where
  identified : (flow : Flow) (linked : Option (Value × Value)) → Reply
  finalized_active : (contact_id employee_id cycle_id : String) → Reply
  finalized : (contact_id flow : String) → Reply

-- The text of the code points, each of which is the one of the text or a `*`.
abbrev pub overlay : String → List ℕ → String
overlay (String.◌∷◌ c s) (n ∷ ns) =
    let rest = overlay s ns in if n == code c then String.◌∷◌ c rest else String.◌∷◌ "*" rest
overlay _ _ = ""

unfoldable pub mask_text : String → String
mask_text phone = overlay phone (mask_phone (codes phone))

-- The first item that `is_visible`.
unfoldable pub first_visible : List Fields → Option Fields
first_visible [] = none
first_visible (item ∷ items) = if is_visible (dict item) then some item else first_visible items

-- item["employeeId"]
unfoldable pub employee_id_of : Option Value → Result Value
employee_id_of none = err key_error
employee_id_of (some v) = ok v

unfoldable pub matched_id : Option Fields → Result Value
matched_id none = ok null
matched_id (some employee) = employee_id_of (lookup "employeeId" employee)

-- if v is not None: item[k] = v
unfoldable pub with_given : String → Value → Fields → Fields
with_given k null item = item
with_given k v item = set_field k v item

unfoldable pub contact_item : Identify → String → Flow → Value → Value → Fields
contact_item p received_at flow employee_id cycle_id = with_given "cycleId" cycle_id (
    with_given "employeeId" employee_id (
      field "contactId" (str p.contact_id) (
        field "receivedAt" (str received_at) (
          field "callerNumber" (str p.caller_number) (
            field "callerNumberMasked" (str (mask_text p.caller_number))
              (field "flow" (str (flow_name flow)) end))))))

unfoldable pub audit_extra : Flow → Value → Value → Fields
audit_extra flow employee_id cycle_id =
    field "flow" (str (flow_name flow))
      (field "employeeId" employee_id (field "cycleId" cycle_id end))

-- assert v is not None
unfoldable pub require_not_none : Value → Result Value
require_not_none null = err assertion_error
require_not_none v = ok v

unfoldable pub identify_reply : Flow → Value → Value → Result Reply
unfolding require_not_none
identify_reply active_cycle employee_id cycle_id = do
  employee ← require_not_none employee_id
  cycle ← require_not_none cycle_id
  ok (identified active_cycle (some (employee, cycle)))
identify_reply flow employee_id cycle_id = ok (identified flow none)

-- SET callResultCode, recordingS3Key, transcriptS3Key, voiceStatus, employeeId
unfoldable pub finalize_active_row : String → String → String → Fields → Fields
finalize_active_row recording transcript employee_id row =
    set_field "employeeId" (str employee_id) (
      set_field "voiceStatus" (str "PENDING") (
        set_field "transcriptS3Key" (str transcript) (
          set_field "recordingS3Key" (str recording)
            (set_field "callResultCode" (str "RECORDED") row))))

-- SET callResultCode
unfoldable pub finalize_row : Fields → Fields
finalize_row row = set_field "callResultCode" (str "NO_RECORDING") row

-- attribute_exists(contactId) AND flow = :f
unfoldable pub has_flow : String → Option Fields → Bool
has_flow flow none = false
has_flow flow (some row) =
    not (is_missing (lookup "contactId" row)) && eq_text (get "flow" row) flow

unfoldable pub inbound_key : String → String → String → String → String
inbound_key yyyymm employee_id contact_id ext =
    "inbound/" ++ (yyyymm ++ ("/" ++ (employee_id ++ ("/" ++ (contact_id ++ ext)))))

unfoldable pub new_response : String → String → Fields
new_response cycle_id employee_id = field "cycleId" (str cycle_id) (
    field "employeeId" (str employee_id) (
      field "callAttempts" (int (pos 0))
        (field "callResultCodes" (list nil) (field "voiceStatus" (str "PENDING") end))))

unfoldable pub snoc : Items → Value → Items
snoc nil v = cons v nil
snoc (cons w ws) v = cons w (snoc ws v)

-- list_append(if_not_exists(…, []), ["INBOUND"]): DynamoDB refuses an attribute that is no list.
unfoldable pub append_inbound : Option Value → Value
unfolding snoc
append_inbound none = list (cons (str "INBOUND") nil)
append_inbound (some (list codes)) = list (snoc codes (str "INBOUND"))
append_inbound (some v) = v

unfoldable pub add_inbound : Fields → Fields
unfolding append_inbound
add_inbound row = set_field "callResultCodes" (append_inbound (lookup "callResultCodes" row)) row
