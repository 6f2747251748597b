-- ===== src/Keyword/Matcher/Priority.antt =====
-- Which category gives the status.
use emergency_contact.Prelude.{
  String, ◌≡◌, ◌≢◌, refl, sym, subst, ◌↔◌, ◌⊎◌, inl, inr, true, false, List, [], ◌∷◌, Bool-cases,
  is_empty, ◌∙◌,
}
use emergency_contact.Python.Results.{ok, >>=-eq-ok, ok_injective}
use emergency_contact.Python.Values.{str, dict, Items, Fields}
use emergency_contact.Python.Texts.{OneOf, Each}
use emergency_contact.Keyword.Matcher.{
  priority_order, default_status, match_keywords, keywords_of, first_match, classify_voice_status,
}
use emergency_contact.Keyword.Matcher.Hits.{
  NoRepeat, IsHit, AllTexts, match_keywords_iff, match_keywords-NoRepeat, match_keywords_returns,
}

is_empty_nil : (xs : List String) → is_empty xs ≡ true → xs ≡ []
is_empty_nil [] h = refl
is_empty_nil (x ∷ xs) h = cc

is_empty_ne : (xs : List String) → is_empty xs ≡ false → xs ≢ []
is_empty_ne [] h = cc
is_empty_ne (x ∷ xs) h = λ e. cc

module _ (lower : String → String) (text : String) (dictionary : Fields) where
  -- The keyword is a hit of the category.
  abbrev pub HitOf : String → String → Type 0
  HitOf category kw =
      (vs : Items) × (keywords_of lower dictionary category ≡ ok vs) × IsHit lower text vs kw

  -- The matched keywords are the hits of the category, each once, and there is one.
  pub record IsChosen (category : String) (matched : List String) : Type 0 where
    pub non_empty : matched ≢ []
    pub no_repeat : NoRepeat matched
    pub hits : (kw : String) → OneOf kw matched ↔ HitOf category kw

  -- The first of the categories that has a hit gives the status; where none has, it is OTHER.
  abbrev pub IsVerdict : List String → String → List String → Type 0
  IsVerdict [] status matched = (status ≡ default_status) × (matched ≡ [])
  IsVerdict (c ∷ cs) status matched =
      ((status ≡ c) × IsChosen c matched)
      ⊎ (((kw : String) → ¬ HitOf c kw) × IsVerdict cs status matched)

  matched_iff :
      (c : String) (vs : Items) (out : List String)
      → keywords_of lower dictionary c ≡ ok vs
      → match_keywords lower text [] vs ≡ ok out
      → (kw : String) → OneOf kw out ↔ HitOf c kw
  matched_iff c vs out g h kw = (
    (λ m. (vs, g, (match_keywords_iff lower text kw vs out h).0 m)),
    (λ (ws, k, hit).
        (match_keywords_iff lower text kw vs out h).1
          (subst (λ us. IsHit lower text us kw) (ok_injective (sym k ∙ g)) hit)),
  )

  first_match-IsVerdict :
      (cs : List String) (s : String) (m : List String)
      → first_match lower text dictionary cs ≡ ok (s, m)
      → IsVerdict cs s m
  unfolding first_match
  first_match-IsVerdict [] s m h = (cc, cc)
  first_match-IsVerdict (c ∷ cs) s m h =
      let (vs, g, h1) = >>=-eq-ok (keywords_of lower dictionary c) _ h in
      let (out, k, h2) = >>=-eq-ok (match_keywords lower text [] vs) _ h1 in
      elim (Bool-cases (is_empty out)) [
        | inl e ↦
            let n : out ≡ [] = is_empty_nil out e in
            inr (
              (λ kw hit. subst (OneOf kw) n ((matched_iff c vs out g k kw).1 hit)),
              first_match-IsVerdict cs s m (rw e at h2),
            )
        | inr e ↦
            let h3 = rw e at h2 in
            let same : out ≡ m = cc in
            inl (
              cc,
              subst (IsChosen c) same (record {
                non_empty = is_empty_ne out e;
                no_repeat = match_keywords-NoRepeat lower text [] vs out k tt;
                hits = matched_iff c vs out g k;
              }),
            )
      ]

  -- Every category that the dictionary names has a list of texts.
  unfoldable pub IsWellFormed : List String → Type 0
  IsWellFormed cs =
      Each (λ c. (vs : Items) × (keywords_of lower dictionary c ≡ ok vs) × AllTexts vs) cs

  first_match_returns :
      (cs : List String)
      → IsWellFormed cs
      → (s : String) × (m : List String) × (first_match lower text dictionary cs ≡ ok (s, m))
  unfolding first_match IsWellFormed
  first_match_returns [] w = (default_status, [], refl)
  first_match_returns (c ∷ cs) ((vs, g, a), w) =
      let (out, k) = match_keywords_returns lower text [] vs a in
      rw (g, k)
        (elim (Bool-cases (is_empty out)) [
          | inl e ↦ rw e (first_match_returns cs w)
          | inr e ↦ rw e (c, out, refl)
        ])

module _ (lower : String → String) where
  -- When `classify_voice_status` returns a status and keywords for a text and a dictionary: the
  -- status is the first of INJURED, UNAVAILABLE and SAFE that has a hit, the keywords are exactly
  -- that category's hits with no repetition and are not empty; where none has a hit, it is OTHER
  -- with no keyword. A hit is a non-empty keyword of the category that the text contains, both
  -- mapped by `lower`.
  pub classify_voice_status-IsVerdict :
      (text : String) (dictionary : Fields) (s : String) (m : List String)
      → classify_voice_status lower (str text) (dict dictionary) ≡ ok (s, m)
      → IsVerdict lower (lower text) dictionary priority_order s m
  unfolding classify_voice_status
  classify_voice_status-IsVerdict text dictionary =
      first_match-IsVerdict lower (lower text) dictionary priority_order

  -- On a dictionary in which each of INJURED, UNAVAILABLE and SAFE is missing or has a list of texts,
  -- `classify_voice_status` returns, and its result is the verdict by priority.
  pub classify_voice_status_total :
      (text : String) (dictionary : Fields)
      → IsWellFormed lower (lower text) dictionary priority_order
      → (s : String) × (m : List String) × (classify_voice_status lower (str text) (dict dictionary)
          ≡ ok (s, m))
        × IsVerdict lower (lower text) dictionary priority_order s m
  unfolding classify_voice_status
  classify_voice_status_total text dictionary w =
      let (s, m, h) = first_match_returns lower (lower text) dictionary priority_order w in
      (s, m, h, classify_voice_status-IsVerdict text dictionary s m h)
