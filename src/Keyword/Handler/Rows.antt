-- ===== src/Keyword/Handler/Rows.antt =====
-- The rows that the keyword matcher writes, and what its services do to them.
use emergency_contact.Prelude.{ℕ, String, refl, ◌∙◌, Bool, Option, some, List, [], ◌∷◌}
use emergency_contact.Prelude.Int.{ℤ}
use emergency_contact.Python.Values.{Value, str, Fields}
use emergency_contact.Aws.Rows.{
  Rows, Writes, Elsewhere, HasField, lookup-set_field, lookup-set_field_same,
}
use emergency_contact.Keyword.Handler.{Services, keyword_list, classify_row, other_row}

-- The effect of the services on the table of the responses.
pub record Documented {W : Type 0} (t : Rows W (String × String)) (s : Services W) : Type 0 where
  pub updates :
      (k : String × String) (test : Option Fields → Bool) (change : Fields → Fields)
      → Writes t k test change (s.responses.update_item k test change)
  pub get_elsewhere : (b k : Value) → Elsewhere t (s.get_object b k)
  pub cycle_elsewhere : (c : String) → Elsewhere t (s.get_cycle c)
  pub query_elsewhere : (v : ℤ) → Elsewhere t (s.query_history v)
  pub meta_elsewhere :
      (k : String × String) (test : Option Fields → Bool) (change : Fields → Fields)
      → Elsewhere t (s.transcripts.update_item k test change)
  pub sleep_elsewhere : (i : ℕ) → Elsewhere t (s.back_off i)

abbrev pub written_names : List String
written_names = "voiceStatus" ∷ "matchedKeywords" ∷ "transcriptExcerpt" ∷ "dictionaryVersion" ∷ []

-- The status and the keywords of a response.
abbrev pub HasVerdict : String → List String → Option Fields → Type 0
HasVerdict status keywords o =
    HasField "voiceStatus" (str status) o × HasField "matchedKeywords" (keyword_list keywords) o

pub classify_row-HasVerdict :
    (status : String) (keywords : List String) (excerpt : String) (version : ℤ) (row : Fields)
    → HasVerdict status keywords (some (classify_row status keywords excerpt version row))
unfolding classify_row
classify_row-HasVerdict status keywords excerpt version row = (
  (
    _,
    refl,
    lookup-set_field "voiceStatus" "dictionaryVersion" _ _ refl
        ∙ lookup-set_field "voiceStatus" "transcriptExcerpt" _ _ refl
        ∙ lookup-set_field "voiceStatus" "matchedKeywords" _ _ refl
        ∙ lookup-set_field_same "voiceStatus" _ row,
  ),
  (
    _,
    refl,
    lookup-set_field "matchedKeywords" "dictionaryVersion" _ _ refl
        ∙ lookup-set_field "matchedKeywords" "transcriptExcerpt" _ _ refl
        ∙ lookup-set_field_same "matchedKeywords" _ _,
  ),
)

pub classify_row-excerpt :
    (status : String) (keywords : List String) (excerpt : String) (version : ℤ) (row : Fields)
    → HasField "transcriptExcerpt"
        (str excerpt)
        (some (classify_row status keywords excerpt version row))
unfolding classify_row
classify_row-excerpt status keywords excerpt version row = (
  _,
  refl,
  lookup-set_field "transcriptExcerpt" "dictionaryVersion" _ _ refl
      ∙ lookup-set_field_same "transcriptExcerpt" _ _,
)

pub other_row-HasVerdict : (row : Fields) → HasVerdict "OTHER" [] (some (other_row row))
unfolding other_row
other_row-HasVerdict row = (
  (
    _,
    refl,
    lookup-set_field "voiceStatus" "matchedKeywords" _ _ refl
        ∙ lookup-set_field_same "voiceStatus" _ row,
  ),
  (_, refl, lookup-set_field_same "matchedKeywords" _ _),
)
