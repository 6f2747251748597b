-- ===== src/Examples/Calls.antt =====
-- Calls, and what their transcripts say.
use mathlib.Core.List.{Permᴰ}
use emergency_contact.Prelude.{ℕ, String, ◌≡◌, refl, ◌↔◌, Bool, true, Option, List, [], ◌∷◌}
use emergency_contact.Python.Results.{ok}
use emergency_contact.Python.Values.{bool, str, list, dict, nil, cons, Fields, end, field, mem}
use emergency_contact.Keyword.Matcher.{
  priority_order, classify_voice_status, first_match, match_keywords, keywords_of, add_keyword,
  contains,
}
use emergency_contact.Keyword.Matcher.Priority.{IsVerdict, classify_voice_status-IsVerdict}
use emergency_contact.Dictionary.Snapshot.{to_snapshot, as_dict}
use emergency_contact.Dictionary.Snapshot.Contents.{to_snapshot-perm}
use emergency_contact.Dictionary.Snapshot.Classified.{classify_snapshot_total}
use emergency_contact.Connect.CallResult.{classify_call_result}
use emergency_contact.Connect.CallResult.Outcomes.{Outcome, IsRead, classify_call_result_iff}

-- A case mapping for texts that have no capitals.
abbrev keep_case : String → String
keep_case s = s

abbrev history_row : String → String → Fields
history_row category keyword = field "category" (str category) (field "keyword" (str keyword) end)

abbrev history : List Fields
history =
    history_row "SAFE" "fine" ∷ history_row "INJURED" "hurt" ∷ history_row "INJURED" "bleeding" ∷ []

abbrev history_later : List Fields
history_later =
    history_row "INJURED" "hurt" ∷ history_row "SAFE" "fine" ∷ history_row "INJURED" "bleeding" ∷ []

abbrev both_words : Fields
both_words =
    field "SAFE" (list (cons (str "fine") nil)) (field "INJURED" (list (cons (str "hurt") nil)) end)

abbrev hurt : List String
hurt = "hurt" ∷ []

classify_voice_status-IsVerdict_example :
    IsVerdict keep_case "fine but hurt" both_words priority_order "INJURED" hurt
unfolding classify_voice_status first_match match_keywords keywords_of add_keyword contains mem
classify_voice_status-IsVerdict_example =
    classify_voice_status-IsVerdict keep_case "fine but hurt" both_words "INJURED" hurt refl

classify_snapshot_total_example :
    (s : String) × (m : List String) × (classify_voice_status keep_case
        (str "we are fine")
        (dict (as_dict (to_snapshot history)))
      ≡ ok (s, m))
    × IsVerdict keep_case "we are fine" (as_dict (to_snapshot history)) priority_order s m
classify_snapshot_total_example = classify_snapshot_total keep_case "we are fine" history

to_snapshot-perm_example : to_snapshot history ≡ to_snapshot history_later
to_snapshot-perm_example = to_snapshot-perm history history_later (Permᴰ.swap refl refl)

classify_call_result_iff_example :
    (classify_call_result keep_case (str "HANGUP") (str "FAILED") (bool true)
      ≡ ok "TRANSCRIBE_FAILED")
    ↔ ((n : String) × (ts : Option String) × (b : Bool) × IsRead keep_case
          (str "HANGUP")
          (str "FAILED")
          (bool true)
          n
          ts
          b
        × Outcome n ts b "TRANSCRIBE_FAILED")
classify_call_result_iff_example =
    classify_call_result_iff keep_case (str "HANGUP") (str "FAILED") (bool true) "TRANSCRIBE_FAILED"

abbrev any_byte : String → ℕ
any_byte s = 217
