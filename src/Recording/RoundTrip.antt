-- ===== src/Recording/RoundTrip.antt =====
-- What is read back from a key that was written.
use Prim.Native.String.{◌++◌}
use text.Mathlib.TextLemmas.{cons-append, cons≢nil}
use emergency_contact.Prelude.{
  ℕ, String, ◌≡◌, refl, sym, subst, ap, ◌∙◌, inl, inr, Bool, true, false, not, ◌&&◌, Option, none,
  some, List, [], ◌∷◌, str_eq, Bool-cases, eq_refl, arith,
}
use emergency_contact.Python.Values.{Value, str}
use emergency_contact.Python.Texts.{str_eq_of_ne}
use emergency_contact.Recording.Keys.{has_slash}
use emergency_contact.Recording.Parsing.{
  RecordingKeyInfo, split_slash, before_end, is_number, is_month, seq_group, outbound_groups,
  contact_group, inbound_groups, match_outbound, match_inbound, outbound_info, inbound_info,
  outbound_transcript, inbound_transcript, recording_info, recording_inbound, transcript_info,
  transcript_inbound, parse_recording_key, parse_transcript_key,
}
use emergency_contact.Recording.Segments.{
  AllSegments, split_slash-AllSegments, split_slash-append, split_slash-segment, before_end-append,
  before_end-segment, has_slash-append, some_injective,
}

-- The groups of a match: neither the middle two nor the last hold a slash, and two are not empty.
pub record AreGroups (a b c : String) : Type 0 where
  pub first_segment : has_slash a ≡ false
  pub second_segment : has_slash b ≡ false
  pub third_segment : has_slash c ≡ false
  pub second_given : str_eq b "" ≡ false

pub four-split :
    (f a b l : String)
    → has_slash f ≡ false
    → has_slash a ≡ false
    → has_slash b ≡ false
    → has_slash l ≡ false
    → split_slash (f ++ ("/" ++ (a ++ ("/" ++ (b ++ ("/" ++ l)))))) ≡ f ∷ a ∷ b ∷ l ∷ []
four-split f a b l hf ha hb hl =
    split_slash-append f _ hf
    ∙ ap (λ ws. f ∷ ws) (split_slash-append a _ ha)
    ∙ ap (λ ws. f ∷ a ∷ ws) (split_slash-append b _ hb)
    ∙ ap (λ ws. f ∷ a ∷ b ∷ ws) (split_slash-segment l hl)

pub append_given : (a b : String) → str_eq a "" ≡ false → str_eq (a ++ b) "" ≡ false
append_given String.[] b h = cc
append_given (String.◌∷◌ c s) b h = str_eq_of_ne _ "" (λ e. cons≢nil (sym (cons-append c s b) ∙ e))

three_tests : (x y z : Bool) → (x && not y && not z) ≡ true → (y ≡ false) × (z ≡ false)
three_tests x y z h = ground arith

two_tests : (x y z : Bool) → (x && y && not z) ≡ true → (y ≡ true) × (z ≡ false)
two_tests x y z h = ground arith

module _ (is_decimal : ℕ → Bool) where
  pub match_outbound-key :
      (folder ext c e seq : String)
      → has_slash folder ≡ false
      → has_slash ext ≡ false
      → AreGroups c e seq
      → str_eq c "" ≡ false
      → is_number is_decimal seq ≡ true
      → match_outbound is_decimal folder ext
          (folder ++ ("/" ++ (c ++ ("/" ++ (e ++ ("/" ++ (seq ++ ext)))))))
        ≡ some (c, e, seq)
  unfolding match_outbound outbound_groups seq_group
  match_outbound-key folder ext c e seq hf hx g hc n =
      let parts =
        four-split folder c e (seq ++ ext) hf g.first_segment g.second_segment
          (has_slash-append seq ext g.third_segment hx) in
      rw (parts, eq_refl, hc, g.second_given, before_end-append seq ext, n)

  match_inbound-key :
      (ext m e contact : String)
      → has_slash ext ≡ false
      → AreGroups m e contact
      → is_month is_decimal m ≡ true
      → str_eq contact "" ≡ false
      → match_inbound is_decimal ext
          ("inbound" ++ ("/" ++ (m ++ ("/" ++ (e ++ ("/" ++ (contact ++ ext)))))))
        ≡ some (m, e, contact)
  unfolding match_inbound inbound_groups contact_group has_slash
  match_inbound-key ext m e contact hx g hm hc =
      let parts =
        four-split "inbound" m e (contact ++ ext) refl g.first_segment g.second_segment
          (has_slash-append contact ext g.third_segment hx) in
      rw (parts, hm, g.second_given, before_end-append contact ext, hc)

  -- A key of the one folder is none of the other.
  match_outbound-inbound :
      (ext m e contact : String)
      → has_slash ext ≡ false
      → AreGroups m e contact
      → match_outbound is_decimal "transcripts" ext
          ("inbound" ++ ("/" ++ (m ++ ("/" ++ (e ++ ("/" ++ (contact ++ ext)))))))
        ≡ none
  unfolding match_outbound outbound_groups has_slash
  match_outbound-inbound ext m e contact hx g =
      let parts =
        four-split "inbound" m e (contact ++ ext) refl g.first_segment g.second_segment
          (has_slash-append contact ext g.third_segment hx) in
      rw parts

  seq_group-returns :
      (c e : String) (o : Option String) (t : String × String × String)
      → seq_group is_decimal c e o ≡ some t
      → (seq : String) × (o ≡ some seq) × (is_number is_decimal seq ≡ true) × (t ≡ (c, e, seq))
  unfolding seq_group
  seq_group-returns c e none t h = cc
  seq_group-returns c e (some seq) t h = elim (Bool-cases (is_number is_decimal seq)) [
    | inl n ↦ (seq, refl, n, sym (some_injective (rw n at h)))
    | inr n ↦ let never = rw n at h in cc
  ]

  abbrev Outbound : String × String × String → Type 0
  Outbound t = AreGroups t.0 t.1 t.2 × (str_eq t.0 "" ≡ false) × (is_number is_decimal t.2 ≡ true)

  outbound_groups-Outbound :
      (folder ext : String) (ws : List String) (t : String × String × String)
      → AllSegments ws
      → outbound_groups is_decimal folder ext ws ≡ some t
      → Outbound t
  unfolding outbound_groups
  outbound_groups-Outbound folder ext (f ∷ c ∷ e ∷ l ∷ []) t a h =
      elim (Bool-cases (str_eq f folder && not (str_eq c "") && not (str_eq e ""))) [
        | inl q ↦
            let given = three_tests (str_eq f folder) (str_eq c "") (str_eq e "") q in
            let last = seq_group-returns c e (before_end ext l) t (rw q at h) in
            let g : AreGroups c e last.0 = record {
              first_segment = a.1.0;
              second_segment = a.1.1.0;
              third_segment = before_end-segment ext l last.0 last.1 a.1.1.1.0;
              second_given = given.1;
            } in
            subst Outbound (sym last.3) (g, given.0, last.2)
        | inr q ↦ let never = rw q at h in cc
      ]
  outbound_groups-Outbound folder ext _ t a h = cc

  contact_group-returns :
      (m e : String) (o : Option String) (t : String × String × String)
      → contact_group m e o ≡ some t
      → (contact : String) × (o ≡ some contact)
        × (str_eq contact "" ≡ false)
        × (t ≡ (m, e, contact))
  unfolding contact_group
  contact_group-returns m e none t h = cc
  contact_group-returns m e (some contact) t h = elim (Bool-cases (str_eq contact "")) [
    | inl n ↦ let never = rw n at h in cc
    | inr n ↦ (contact, refl, n, sym (some_injective (rw n at h)))
  ]

  abbrev Inbound : String × String × String → Type 0
  Inbound t = AreGroups t.0 t.1 t.2 × (is_month is_decimal t.0 ≡ true) × (str_eq t.2 "" ≡ false)

  inbound_groups-Inbound :
      (ext : String) (ws : List String) (t : String × String × String)
      → AllSegments ws
      → inbound_groups is_decimal ext ws ≡ some t
      → Inbound t
  unfolding inbound_groups
  inbound_groups-Inbound ext (f ∷ m ∷ e ∷ l ∷ []) t a h =
      elim (Bool-cases (str_eq f "inbound" && is_month is_decimal m && not (str_eq e ""))) [
        | inl q ↦
            let given = two_tests (str_eq f "inbound") (is_month is_decimal m) (str_eq e "") q in
            let last = contact_group-returns m e (before_end ext l) t (rw q at h) in
            let g : AreGroups m e last.0 = record {
              first_segment = a.1.0;
              second_segment = a.1.1.0;
              third_segment = before_end-segment ext l last.0 last.1 a.1.1.1.0;
              second_given = given.1;
            } in
            subst Inbound (sym last.3) (g, given.0, last.2)
        | inr q ↦ let never = rw q at h in cc
      ]
  inbound_groups-Inbound ext _ t a h = cc

  outbound_transcript-read :
      (t : String × String × String)
      → Outbound t
      → parse_transcript_key is_decimal (str (outbound_transcript t.0 t.1 t.2))
        ≡ some (outbound_info t.0 t.1 t.2 (outbound_transcript t.0 t.1 t.2))
  unfolding parse_transcript_key transcript_info outbound_transcript has_slash
  outbound_transcript-read (c, e, seq) (g, hc, n) = rw (
    append_given "transcripts" _ refl,
    match_outbound-key "transcripts" ".json" c e seq refl refl g hc n,
  )

  inbound_transcript-read :
      (t : String × String × String)
      → Inbound t
      → parse_transcript_key is_decimal (str (inbound_transcript t.0 t.1 t.2))
        ≡ some (inbound_info t.1 t.2 (inbound_transcript t.0 t.1 t.2))
  unfolding parse_transcript_key transcript_info transcript_inbound inbound_transcript has_slash
  inbound_transcript-read (m, e, contact) (g, hm, hc) = rw (
    append_given "inbound" _ refl,
    match_outbound-inbound ".json" m e contact refl g,
    match_inbound-key ".json" m e contact refl g hm hc,
  )

  read_back :
      (o i : Option (String × String × String)) (info : RecordingKeyInfo)
      → ((t : String × String × String) → o ≡ some t → Outbound t)
      → ((t : String × String × String) → i ≡ some t → Inbound t)
      → recording_info o i ≡ some info
      → parse_transcript_key is_decimal (str info.transcript_s3_key) ≡ some info
  unfolding recording_info recording_inbound
  read_back (some t) i info out inn h =
      subst (λ x. parse_transcript_key is_decimal (str x.transcript_s3_key) ≡ some x)
        (some_injective h) (outbound_transcript-read t (out t refl))
  read_back none (some t) info out inn h =
      subst (λ x. parse_transcript_key is_decimal (str x.transcript_s3_key) ≡ some x)
        (some_injective h) (inbound_transcript-read t (inn t refl))
  read_back none none info out inn h = cc

  -- A recording's key that is read gives the key of its transcript, and that key is read as the same
  -- parts: so a transcript goes to the response and the table row of its recording.
  pub transcript_of_recording :
      (key : Value) (info : RecordingKeyInfo)
      → parse_recording_key is_decimal key ≡ some info
      → parse_transcript_key is_decimal (str info.transcript_s3_key) ≡ some info
  unfolding parse_recording_key match_outbound match_inbound
  transcript_of_recording (str key) info h = elim (Bool-cases (str_eq key "")) [
    | inl e ↦ let never = rw e at h in cc
    | inr e ↦
        read_back (match_outbound is_decimal "recordings" ".wav" key)
          (match_inbound is_decimal ".wav" key) info
          (λ t. outbound_groups-Outbound "recordings" ".wav" _ t (split_slash-AllSegments key))
          (λ t. inbound_groups-Inbound ".wav" _ t (split_slash-AllSegments key)) (rw e at h)
  ]
  transcript_of_recording _ info h = cc
