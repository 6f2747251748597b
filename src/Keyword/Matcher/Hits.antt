-- ===== src/Keyword/Matcher/Hits.antt =====
-- Which keywords of a category are matched.
use emergency_contact.Prelude.{
  String, ◌≡◌, ◌≢◌, refl, ◌↔◌, ◌⊎◌, inl, inr, true, false, List, [], ◌∷◌, ◌++◌, str_eq, eq_iff,
  eq_refl, arith, sym, subst, ap, Bool-cases,
}
use emergency_contact.Python.Results.{ok}
use emergency_contact.Python.Values.{str, Items, nil, cons, mem, str_injective}
use emergency_contact.Python.Texts.{text_ne, HasText, OneOf, OneOf-of_mem}
use emergency_contact.Keyword.Matcher.{contains, add_keyword, match_keywords}

OneOf-append_left : (s : String) (xs ys : List String) → OneOf s xs → OneOf s (xs ++ ys)
OneOf-append_left s [] ys m = absurd m
OneOf-append_left s (x ∷ xs) ys (inl e) = inl e
OneOf-append_left s (x ∷ xs) ys (inr m) = inr (OneOf-append_left s xs ys m)

OneOf-snoc : (s : String) (xs : List String) → OneOf s (xs ++ s ∷ [])
OneOf-snoc s [] = inl refl
OneOf-snoc s (x ∷ xs) = inr (OneOf-snoc s xs)

OneOf-of_snoc : (s t : String) (xs : List String) → OneOf s (xs ++ t ∷ []) → OneOf s xs ⊎ (s ≡ t)
OneOf-of_snoc s t [] (inl e) = inr e
OneOf-of_snoc s t [] (inr m) = absurd m
OneOf-of_snoc s t (x ∷ xs) (inl e) = inl (inl e)
OneOf-of_snoc s t (x ∷ xs) (inr m) = elim (OneOf-of_snoc s t xs m) [
  | inl n ↦ inl (inr n)
  | inr e ↦ inr e
]

-- Every item is a text.
abbrev pub AllTexts : Items → Type 0
AllTexts nil = Unit
AllTexts (cons (str s) vs) = AllTexts vs
AllTexts (cons _ vs) = ⊥

-- No text stands in the list twice.
abbrev pub NoRepeat : List String → Type 0
NoRepeat [] = Unit
NoRepeat (x ∷ xs) = (mem x xs ≡ false) × NoRepeat xs

mem_tail : (s x : String) (xs : List String) → mem s (x ∷ xs) ≡ false → mem s xs ≡ false
unfolding mem
mem_tail s x xs h = ground arith

str_eq_sym : (s t : String) → str_eq s t ≡ false → str_eq t s ≡ false
str_eq_sym s t h = elim (Bool-cases (str_eq t s)) [
  | inl e ↦ let k = rw ((eq_iff t s).0 e, eq_refl) at h in cc
  | inr e ↦ e
]

mem_snoc :
    (s t : String) (xs : List String)
    → mem s xs ≡ false
    → str_eq s t ≡ false
    → mem s (xs ++ t ∷ []) ≡ false
unfolding mem
mem_snoc s t [] h e = rw e
mem_snoc s t (x ∷ xs) h e = ground (arith, mem_snoc s t xs)

mem_snoc_ne :
    (s x : String) (xs : List String)
    → mem s (x ∷ xs) ≡ false
    → mem x xs ≡ false
    → mem x (xs ++ s ∷ []) ≡ false
unfolding mem
mem_snoc_ne s x xs h n = mem_snoc x s xs n (str_eq_sym s x (ground arith))

NoRepeat-snoc :
    (s : String) (xs : List String) → mem s xs ≡ false → NoRepeat xs → NoRepeat (xs ++ s ∷ [])
unfolding mem
NoRepeat-snoc s [] h n = (refl, tt)
NoRepeat-snoc s (x ∷ xs) h n =
    (mem_snoc_ne s x xs h n.0, NoRepeat-snoc s xs (mem_tail s x xs h) n.1)

module _ (lower : String → String) (text : String) where
  -- The keyword is in the list, is not empty, and occurs in the text but for the case.
  pub record IsHit (keywords : Items) (kw : String) : Type 0 where
    pub listed : HasText kw keywords
    pub non_empty : kw ≢ ""
    pub occurs : contains (lower kw) text ≡ true

  add_keeps :
      (s kw : String) (matched : List String)
      → OneOf s matched
      → OneOf s (add_keyword lower text matched kw)
  unfolding add_keyword
  add_keeps s kw matched m = elim (Bool-cases (str_eq kw "")) [
    | inl e ↦ rw e m
    | inr e ↦ rw e (elim (Bool-cases (mem kw matched)) [
      | inl d ↦ rw d m
      | inr d ↦ rw d (elim (Bool-cases (contains (lower kw) text)) [
        | inl c ↦ rw c (OneOf-append_left s matched (kw ∷ []) m)
        | inr c ↦ rw c m
      ])
    ])
  ]

  add_hit :
      (s kw : String) (matched : List String)
      → (s ≡ kw) × (kw ≢ "") × (contains (lower kw) text ≡ true)
      → OneOf s (add_keyword lower text matched kw)
  unfolding add_keyword
  add_hit s kw matched (e, n, c) = elim (Bool-cases (str_eq kw "")) [
    | inl z ↦ absurd (n ((eq_iff kw "").0 z))
    | inr z ↦ rw z (elim (Bool-cases (mem kw matched)) [
      | inl d ↦ rw (d, e) (OneOf-of_mem kw matched d)
      | inr d ↦ rw (d, c, e) (OneOf-snoc kw matched)
    ])
  ]

  same :
      {vs : Items} {s kw : String}
      → IsHit vs s
      → kw ≡ s
      → (s ≡ kw) × (kw ≢ "") × (contains (lower kw) text ≡ true)
  same k e = (sym e, rw e k.non_empty, rw e k.occurs)

  add_sound :
      (s kw : String) (matched : List String)
      → OneOf s (add_keyword lower text matched kw)
      → OneOf s matched ⊎ ((s ≡ kw) × (kw ≢ "") × (contains (lower kw) text ≡ true))
  unfolding add_keyword
  add_sound s kw matched m = elim (Bool-cases (str_eq kw "")) [
    | inl z ↦ inl (rw z at m)
    | inr z ↦
        let m' = rw z at m in
        elim (Bool-cases (mem kw matched)) [
          | inl d ↦ inl (rw d at m')
          | inr d ↦
              let m'' = rw d at m' in
              elim (Bool-cases (contains (lower kw) text)) [
                | inl c ↦ elim (OneOf-of_snoc s kw matched (rw c at m'')) [
                  | inl k ↦ inl k
                  | inr e ↦ inr (e, (λ k. text_ne kw "" z k), c)
                ]
                | inr c ↦ inl (rw c at m'')
              ]
        ]
  ]

  -- A run that starts with `acc` keeps it.
  keeps :
      (s : String) (acc : List String) (vs : Items) (out : List String)
      → match_keywords lower text acc vs ≡ ok out
      → OneOf s acc
      → OneOf s out
  unfolding match_keywords
  keeps s acc nil out h m = let e : acc ≡ out = cc in subst (OneOf s) e m
  keeps s acc (cons (str kw) vs) out h m =
      keeps s (add_keyword lower text acc kw) vs out h (add_keeps s kw acc m)
  keeps s acc (cons _ vs) out h m = cc

  sound :
      (s : String) (acc : List String) (vs : Items) (out : List String)
      → match_keywords lower text acc vs ≡ ok out
      → OneOf s out
      → OneOf s acc ⊎ IsHit vs s
  unfolding match_keywords
  sound s acc nil out h m = let e : out ≡ acc = cc in inl (subst (OneOf s) e m)
  sound s acc (cons (str kw) vs) out h m =
      elim (sound s (add_keyword lower text acc kw) vs out h m) [
        | inr k ↦ inr (record { listed = inr k.listed; non_empty = k.non_empty; occurs = k.occurs })
        | inl k ↦ elim (add_sound s kw acc k) [
          | inl a ↦ inl a
          | inr (e, n, c) ↦
              inr (record { listed = inl (ap str (sym e)); non_empty = rw e n; occurs = rw e c })
        ]
      ]
  sound s acc (cons _ vs) out h m = cc

  complete :
      (s : String) (acc : List String) (vs : Items) (out : List String)
      → match_keywords lower text acc vs ≡ ok out
      → IsHit vs s
      → OneOf s out
  unfolding match_keywords
  complete s acc nil out h k = absurd k.listed
  complete s acc (cons (str kw) vs) out h k = elim k.listed [
    | inl e ↦
        keeps s (add_keyword lower text acc kw) vs out h
          (add_hit s kw acc (same k (str_injective e)))
    | inr l ↦
        complete s (add_keyword lower text acc kw) vs out h
          (record { listed = l; non_empty = k.non_empty; occurs = k.occurs })
  ]
  complete s acc (cons _ vs) out h k = cc

  -- The matched keywords of a category are those of its keywords that are hits.
  pub match_keywords_iff :
      (s : String) (vs : Items) (out : List String)
      → match_keywords lower text [] vs ≡ ok out
      → OneOf s out ↔ IsHit vs s
  match_keywords_iff s vs out h =
      ((λ m. elim (sound s [] vs out h m) [ inl a ↦ absurd a | inr k ↦ k ]), complete s [] vs out h)

  add_NoRepeat :
      (kw : String) (matched : List String)
      → NoRepeat matched
      → NoRepeat (add_keyword lower text matched kw)
  unfolding add_keyword
  add_NoRepeat kw matched n = elim (Bool-cases (str_eq kw "")) [
    | inl z ↦ rw z n
    | inr z ↦ rw z (elim (Bool-cases (mem kw matched)) [
      | inl d ↦ rw d n
      | inr d ↦ rw d (elim (Bool-cases (contains (lower kw) text)) [
        | inl c ↦ rw c (NoRepeat-snoc kw matched d n)
        | inr c ↦ rw c n
      ])
    ])
  ]

  pub match_keywords-NoRepeat :
      (acc : List String) (vs : Items) (out : List String)
      → match_keywords lower text acc vs ≡ ok out
      → NoRepeat acc
      → NoRepeat out
  unfolding match_keywords
  match_keywords-NoRepeat acc nil out h n = let e : acc ≡ out = cc in subst NoRepeat e n
  match_keywords-NoRepeat acc (cons (str kw) vs) out h n =
      match_keywords-NoRepeat (add_keyword lower text acc kw) vs out h (add_NoRepeat kw acc n)
  match_keywords-NoRepeat acc (cons _ vs) out h n = cc

  pub match_keywords_returns :
      (acc : List String) (vs : Items)
      → AllTexts vs
      → (out : List String) × (match_keywords lower text acc vs ≡ ok out)
  unfolding match_keywords
  match_keywords_returns acc nil a = (acc, refl)
  match_keywords_returns acc (cons (str kw) vs) a =
      match_keywords_returns (add_keyword lower text acc kw) vs a
  match_keywords_returns acc (cons _ vs) a = absurd a
