-- ===== src/Dictionary/Snapshot/Classified.antt =====
-- A snapshot as the dictionary of the keyword matcher.
use emergency_contact.Prelude.{String, ◌≡◌, refl, List, [], ◌∷◌, map}
use emergency_contact.Python.Results.{ok}
use emergency_contact.Python.Values.{str, dict, Fields, from_list}
use emergency_contact.Keyword.Matcher.{priority_order, classify_voice_status, keywords_of}
use emergency_contact.Keyword.Matcher.Hits.{AllTexts}
use emergency_contact.Keyword.Matcher.Priority.{
  IsVerdict, IsWellFormed, classify_voice_status_total,
}
use emergency_contact.Dictionary.Snapshot.{Snapshot, as_dict, to_snapshot}

texts-AllTexts : (ks : List String) → AllTexts (from_list (map str ks))
texts-AllTexts [] = tt
texts-AllTexts (k ∷ ks) = texts-AllTexts ks

module _ (lower : String → String) where
  pub as_dict-IsWellFormed :
      (text : String) (s : Snapshot) → IsWellFormed lower text (as_dict s) priority_order
  unfolding IsWellFormed keywords_of as_dict
  as_dict-IsWellFormed text s = (
    (from_list (map str s.injured), refl, texts-AllTexts s.injured),
    (
      (from_list (map str s.unavailable), refl, texts-AllTexts s.unavailable),
      ((from_list (map str s.safe), refl, texts-AllTexts s.safe), tt),
    ),
  )

  -- With the snapshot of whatever rows as its dictionary, the classification of a text returns, and
  -- its result is the verdict by priority.
  pub classify_snapshot_total :
      (text : String) (rows : List Fields)
      → (s : String) × (m : List String) × (classify_voice_status lower
            (str text)
            (dict (as_dict (to_snapshot rows)))
          ≡ ok (s, m))
        × IsVerdict lower (lower text) (as_dict (to_snapshot rows)) priority_order s m
  classify_snapshot_total text rows =
      classify_voice_status_total lower text (as_dict (to_snapshot rows))
        (as_dict-IsWellFormed (lower text) (to_snapshot rows))
