-- ===== src/Connect/CallResult/Outcomes.antt =====
-- Which result code a call gets.
use emergency_contact.Prelude.{
  String, ◌≡◌, ◌≢◌, refl, sym, subst, ◌∙◌, ◌↔◌, ◌⊎◌, inl, inr, Bool, true, false, Option, none,
  some, arith, str_eq, Bool-cases,
}
use emergency_contact.Python.Results.{ok, >>=-eq-ok, ok_injective}
use emergency_contact.Python.Values.{Value, null, bool, str, mem}
use emergency_contact.Python.Texts.{each_mem, text_ne}
use emergency_contact.Connect.CallResult.{
  no_answer_reasons, busy_reasons, voicemail_reasons, error_reasons, connected_reasons,
  all_transcribe_statuses, valid_call_result_codes, strip, normalise, normalise_transcribe_status,
  classify_non_connected, classify_connected, classify_rest, classify_call_result, is_status,
  is_none, require_reason, require_bool,
}

-- The code of a call by the bucket of its reason `n`, and for a connected call by the recording and
-- the status of the transcription.
pub data Outcome (n : String) (ts : Option String) (recorded : Bool) (c : String) : Type 0 where
  unanswered : mem n no_answer_reasons ≡ true → c ≡ "NO_ANSWER" → Outcome n ts recorded c
  busy : mem n busy_reasons ≡ true → c ≡ "BUSY" → Outcome n ts recorded c
  voicemail : mem n voicemail_reasons ≡ true → c ≡ "VOICEMAIL" → Outcome n ts recorded c
  failed : mem n error_reasons ≡ true → c ≡ "ERROR" → Outcome n ts recorded c
  unrecorded :
      mem n connected_reasons ≡ true → recorded ≡ false → c ≡ "ERROR" → Outcome n ts recorded c
  kept :
      mem n connected_reasons ≡ true
      → recorded ≡ true
      → ts ≢ some "FAILED"
      → c ≡ "RECORDED"
      → Outcome n ts recorded c
  untranscribed :
      mem n connected_reasons ≡ true
      → recorded ≡ true
      → ts ≡ some "FAILED"
      → c ≡ "TRANSCRIBE_FAILED"
      → Outcome n ts recorded c

-- No transcription, or one in a recognised status.
abbrev pub IsKnown : Option String → Type 0
IsKnown none = Unit
IsKnown (some s) = mem s all_transcribe_statuses ≡ true

some_injective : {s t : String} → some s ≡ some t → s ≡ t
some_injective h = cc

-- The status of a recorded call gives one of two codes.
connected_code :
    (s : String)
    → mem s all_transcribe_statuses ≡ true
    → ((s ≡ "FAILED") × (classify_connected (some s) true ≡ ok "TRANSCRIBE_FAILED"))
      ⊎ (((some s) ≢ some "FAILED") × (classify_connected (some s) true ≡ ok "RECORDED"))
unfolding mem classify_connected is_status is_none
connected_code =
    each_mem
      (λ s.
        ((s ≡ "FAILED") × (classify_connected (some s) true ≡ ok "TRANSCRIBE_FAILED"))
        ⊎ (((some s) ≢ some "FAILED") × (classify_connected (some s) true ≡ ok "RECORDED")))
      all_transcribe_statuses
      (
        inr ((λ e. text_ne "COMPLETED" "FAILED" refl (some_injective e)), refl),
        (
          inl (refl, refl),
          (
            inr ((λ e. text_ne "QUEUED" "FAILED" refl (some_injective e)), refl),
            (inr ((λ e. text_ne "IN_PROGRESS" "FAILED" refl (some_injective e)), refl), tt),
          ),
        ),
      )

unrecorded_code : (ts : Option String) → classify_connected ts false ≡ ok "ERROR"
unfolding classify_connected
unrecorded_code ts = refl

recorded_code :
    (ts : Option String)
    → IsKnown ts
    → ((ts ≡ some "FAILED") × (classify_connected ts true ≡ ok "TRANSCRIBE_FAILED"))
      ⊎ ((ts ≢ some "FAILED") × (classify_connected ts true ≡ ok "RECORDED"))
unfolding classify_connected is_none
recorded_code none k = inr ((λ e. absurd (ground arith)), refl)
recorded_code (some s) k = elim (connected_code s k) [ inl (e, r) ↦ inl (cc, r) | inr p ↦ inr p ]

-- No reason is in two buckets: what the module tests when it is loaded.
no_answer_code :
    (n : String) → mem n no_answer_reasons ≡ true → classify_non_connected n ≡ some "NO_ANSWER"
unfolding mem classify_non_connected
no_answer_code =
    each_mem (λ n. classify_non_connected n ≡ some "NO_ANSWER") no_answer_reasons
      (refl, (refl, (refl, (refl, (refl, tt)))))

busy_code : (n : String) → mem n busy_reasons ≡ true → classify_non_connected n ≡ some "BUSY"
unfolding mem classify_non_connected
busy_code =
    each_mem (λ n. classify_non_connected n ≡ some "BUSY") busy_reasons (refl, (refl, (refl, tt)))

voicemail_code :
    (n : String) → mem n voicemail_reasons ≡ true → classify_non_connected n ≡ some "VOICEMAIL"
unfolding mem classify_non_connected
voicemail_code =
    each_mem (λ n. classify_non_connected n ≡ some "VOICEMAIL") voicemail_reasons
      (refl, (refl, (refl, tt)))

error_code : (n : String) → mem n error_reasons ≡ true → classify_non_connected n ≡ some "ERROR"
unfolding mem classify_non_connected
error_code =
    each_mem (λ n. classify_non_connected n ≡ some "ERROR") error_reasons
      (refl, (refl, (refl, (refl, (refl, (refl, (refl, (refl, (refl, tt)))))))))

connected_no_code : (n : String) → mem n connected_reasons ≡ true → classify_non_connected n ≡ none
unfolding mem classify_non_connected
connected_no_code =
    each_mem (λ n. classify_non_connected n ≡ none) connected_reasons
      (refl, (refl, (refl, (refl, (refl, (refl, (refl, tt)))))))

rest_complete :
    (n : String) (ts : Option String) (b : Bool) (c : String)
    → IsKnown ts
    → Outcome n ts b c
    → classify_rest n ts b (classify_non_connected n) ≡ ok c
unfolding classify_rest
rest_complete n ts b c k (unanswered m e) = rw (no_answer_code n m, e)
rest_complete n ts b c k (busy m e) = rw (busy_code n m, e)
rest_complete n ts b c k (voicemail m e) = rw (voicemail_code n m, e)
rest_complete n ts b c k (failed m e) = rw (error_code n m, e)
rest_complete n ts b c k (unrecorded m r e) =
    rw (connected_no_code n m, m, r, e) (unrecorded_code ts)
rest_complete n ts b c k (kept m r f e) =
    rw (connected_no_code n m, m, r, e)
      (elim (recorded_code ts k) [ inl (g, _) ↦ absurd (f g) | inr (_, q) ↦ q ])
rest_complete n ts b c k (untranscribed m r f e) =
    rw (connected_no_code n m, m, r, e)
      (elim (recorded_code ts k) [ inl (_, q) ↦ q | inr (g, _) ↦ absurd (g f) ])

connected_sound :
    (n : String) (ts : Option String) (b : Bool) (c : String)
    → IsKnown ts
    → mem n connected_reasons ≡ true
    → classify_connected ts b ≡ ok c
    → Outcome n ts b c
connected_sound n ts true c k m h = elim (recorded_code ts k) [
  | inl (g, q) ↦ untranscribed m refl g (ok_injective (sym h ∙ q))
  | inr (g, q) ↦ kept m refl g (ok_injective (sym h ∙ q))
]
connected_sound n ts false c k m h = unrecorded m refl (ok_injective (sym h ∙ unrecorded_code ts))

rest_sound :
    (n : String) (ts : Option String) (b : Bool) (c : String)
    → IsKnown ts
    → classify_rest n ts b (classify_non_connected n) ≡ ok c
    → Outcome n ts b c
unfolding classify_rest classify_non_connected
rest_sound n ts b c k h = elim (Bool-cases (mem n no_answer_reasons)) [
  | inl e ↦ let h' = rw e at h in unanswered e cc
  | inr e ↦
      let h1 = rw e at h in
      elim (Bool-cases (mem n busy_reasons)) [
        | inl e ↦ let h' = rw e at h1 in busy e cc
        | inr e ↦
            let h2 = rw e at h1 in
            elim (Bool-cases (mem n voicemail_reasons)) [
              | inl e ↦ let h' = rw e at h2 in voicemail e cc
              | inr e ↦
                  let h3 = rw e at h2 in
                  elim (Bool-cases (mem n error_reasons)) [
                    | inl e ↦ let h' = rw e at h3 in failed e cc
                    | inr e ↦
                        let h4 = rw e at h3 in
                        elim (Bool-cases (mem n connected_reasons)) [
                          | inl e ↦ connected_sound n ts b c k e (rw e at h4)
                          | inr e ↦ let h' = rw e at h4 in cc
                        ]
                  ]
            ]
      ]
]

Outcome-valid :
    (n : String) (ts : Option String) (b : Bool) (c : String)
    → Outcome n ts b c
    → mem c valid_call_result_codes ≡ true
unfolding mem
Outcome-valid n ts b c (unanswered m e) = rw e refl
Outcome-valid n ts b c (busy m e) = rw e refl
Outcome-valid n ts b c (voicemail m e) = rw e refl
Outcome-valid n ts b c (failed m e) = rw e refl
Outcome-valid n ts b c (unrecorded m r e) = rw e refl
Outcome-valid n ts b c (kept m r f e) = rw e refl
Outcome-valid n ts b c (untranscribed m r f e) = rw e refl

module _ (upper : String → String) where
  -- What the code reads from the three arguments.
  pub record IsRead (reason transcribe_status recorded : Value) (n : String) (ts : Option String)
      (b : Bool) : Type 0 where
    pub text : String
    pub reason_text : reason ≡ str text
    pub non_blank : str_eq (strip text) "" ≡ false
    pub reason_read : normalise upper text ≡ n
    pub flag : recorded ≡ bool b
    pub status_read : normalise_transcribe_status upper transcribe_status ≡ ok ts

  normalised-IsKnown :
      (v : Value) (ts : Option String) → normalise_transcribe_status upper v ≡ ok ts → IsKnown ts
  unfolding normalise_transcribe_status
  normalised-IsKnown null none h = tt
  normalised-IsKnown null (some s) h = cc
  normalised-IsKnown (str s) none h = tt
  normalised-IsKnown (str s) (some u) h = elim (Bool-cases (str_eq (strip s) "")) [
    | inl e ↦ let h' = rw e at h in cc
    | inr e ↦
        let h1 = rw e at h in
        elim (Bool-cases (mem (normalise upper s) all_transcribe_statuses)) [
          | inl e ↦
              let h2 = rw e at h1 in
              let same : normalise upper s ≡ u = cc in
              subst (λ w. mem w all_transcribe_statuses ≡ true) same e
          | inr e ↦ let h2 = rw e at h1 in cc
        ]
  ]
  normalised-IsKnown _ ts h = cc

  read :
      (r t d : Value) (c : String)
      → classify_call_result upper r t d ≡ ok c
      → (n : String) × (ts : Option String) × (b : Bool) × IsRead r t d n ts b
        × (classify_rest n ts b (classify_non_connected n) ≡ ok c)
  unfolding classify_call_result require_reason require_bool
  read (str s) t (bool b) c h = elim (Bool-cases (str_eq (strip s) "")) [
    | inl e ↦ let h' = rw e at h in cc
    | inr e ↦
        let (ts, q, h1) = >>=-eq-ok (normalise_transcribe_status upper t) _ (rw e at h) in
        (
          normalise upper s,
          ts,
          b,
          record {
            text = s;
            reason_text = refl;
            non_blank = e;
            reason_read = refl;
            flag = refl;
            status_read = q;
          },
          h1,
        )
  ]
  read (str s) t _ c h = elim (Bool-cases (str_eq (strip s) "")) [
    | inl e ↦ let h' = rw e at h in cc
    | inr e ↦ let h' = rw e at h in cc
  ]
  read _ t d c h = cc

  run :
      (r t d : Value) (n : String) (ts : Option String) (b : Bool) (c : String)
      → IsRead r t d n ts b
      → classify_call_result upper r t d ≡ classify_rest n ts b (classify_non_connected n)
  unfolding classify_call_result require_reason require_bool
  run r t d n ts b c i = rw (i.reason_text, i.flag, i.non_blank, i.status_read, i.reason_read)

  -- `classify_call_result` returns a code exactly when the reason is a text that is not blank,
  -- `recorded` a Boolean and the transcription's status absent, blank or recognised, and the code is
  -- the one of the reason's bucket: for a connected call ERROR without a recording,
  -- TRANSCRIBE_FAILED with one whose transcription failed, and RECORDED otherwise. In every other
  -- case it raises.
  pub classify_call_result_iff :
      (reason transcribe_status recorded : Value) (c : String)
      → (classify_call_result upper reason transcribe_status recorded ≡ ok c) ↔ (
          (n : String) × (ts : Option String) × (b : Bool) × IsRead reason transcribe_status
            recorded n ts b
          × Outcome n ts b c)
  classify_call_result_iff r t d c = (
    (λ h.
        let (n, ts, b, i, q) = read r t d c h in
        (n, ts, b, i, rest_sound n ts b c (normalised-IsKnown t ts i.status_read) q)),
    (λ (n, ts, b, i, o).
        run r t d n ts b c i ∙ rest_complete n ts b c (normalised-IsKnown t ts i.status_read) o),
  )

  -- Whatever code `classify_call_result` returns is one of the six valid codes.
  pub classify_call_result-valid :
      (reason transcribe_status recorded : Value) (c : String)
      → classify_call_result upper reason transcribe_status recorded ≡ ok c
      → mem c valid_call_result_codes ≡ true
  classify_call_result-valid r t d c h =
      let (n, ts, b, _, o) = (classify_call_result_iff r t d c).0 h in Outcome-valid n ts b c o
