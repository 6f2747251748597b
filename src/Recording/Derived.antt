-- ===== src/Recording/Derived.antt =====
-- The key that the dispatcher derives, read by the starter of the transcriptions.
use Prim.Native.Char.{code}
use emergency_contact.Prelude.{
  ℕ, String, ◌≡◌, refl, subst, ◌∙◌, inl, inr, Bool, true, false, ◌||◌, ◌==◌, some, str_eq,
  Bool-cases, ==_iff, arith,
}
use emergency_contact.Prelude.Int.{pos}
use emergency_contact.Python.Results.{ok, ok_injective, >>=-eq-ok}
use emergency_contact.Python.Values.{Value, str, int}
use emergency_contact.Recording.Keys.{
  has_slash, require_segment, require_seq, derive_target_outbound_key, outbound_key,
}
use emergency_contact.Recording.Parsing.{
  is_number, all_digits, outbound_info, outbound_transcript, recording_info, parse_recording_key,
}
use emergency_contact.Recording.RoundTrip.{AreGroups, match_outbound-key, append_given}

-- A segment that is accepted.
pub require_segment-returns :
    (s t : String)
    → require_segment (str s) ≡ ok t
    → (str_eq s "" ≡ false) × (has_slash s ≡ false) × (s ≡ t)
unfolding require_segment
require_segment-returns s t h = elim (Bool-cases (str_eq s "" || has_slash s)) [
  | inl q ↦ let never = rw q at h in cc
  | inr q ↦
      let both : (str_eq s "" ≡ false) × (has_slash s ≡ false) = ground arith in
      (both.0, both.1, ok_injective (rw q at h))
]

pub number-given :
    (is_decimal : ℕ → Bool) (s : String)
    → is_number is_decimal s ≡ true
    → (str_eq s "" ≡ false) × (all_digits is_decimal s ≡ true)
unfolding is_number
number-given is_decimal s h = ground arith

module _ (is_decimal : ℕ → Bool) (slash : is_decimal (code "/") ≡ false) where
  pub all_digits-no_slash : (s : String) → all_digits is_decimal s ≡ true → has_slash s ≡ false
  unfolding all_digits has_slash
  all_digits-no_slash String.[] h = refl
  all_digits-no_slash (String.◌∷◌ c s) h = elim (Bool-cases (is_decimal (code c))) [
    | inl e ↦
        let rest = all_digits-no_slash s (rw e at h) in
        elim (Bool-cases (code c == code "/")) [
          | inl d ↦
              let same = (==_iff (code c) (code "/")).0 d in
              let never = rw same at e in absurd (ground arith)
          | inr d ↦ rw (d, rest)
        ]
    | inr e ↦ let never = rw e at h in cc
  ]

  outbound_key-read :
      (c e seq : String)
      → (str_eq c "" ≡ false) × (has_slash c ≡ false)
      → (str_eq e "" ≡ false) × (has_slash e ≡ false)
      → is_number is_decimal seq ≡ true
      → parse_recording_key is_decimal (str (outbound_key c e seq))
        ≡ some (outbound_info c e seq (outbound_transcript c e seq))
  unfolding parse_recording_key recording_info outbound_key has_slash
  outbound_key-read c e seq hc he n =
      let g : AreGroups c e seq = record {
        first_segment = hc.1;
        second_segment = he.1;
        third_segment = all_digits-no_slash seq (number-given is_decimal seq n).1;
        second_given = he.0;
      } in
      rw (
        append_given "recordings" _ refl,
        match_outbound-key is_decimal "recordings" ".wav" c e seq refl refl g hc.0 n,
      )

  -- The key that the dispatcher derives for a recording is read back as the same cycle, employee and
  -- call. Assumed of `str` is that a number is written with digits, at least one, and of digits that a
  -- slash is none.
  pub derived_key-read :
      (text_of : Value → String)
      → ((n : ℕ) → is_number is_decimal (text_of (int (pos n))) ≡ true)
      → (c e : String) (n : ℕ) (key : String)
      → derive_target_outbound_key text_of (str c) (str e) (int (pos n)) ≡ ok key
      → parse_recording_key is_decimal (str key)
        ≡ some (
            outbound_info c e
              (text_of (int (pos n)))
              (outbound_transcript c e (text_of (int (pos n)))))
  unfolding derive_target_outbound_key require_seq
  derived_key-read text_of digits c e n key h =
      let cycle = >>=-eq-ok (require_segment (str c)) _ h in
      let employee = >>=-eq-ok (require_segment (str e)) _ cycle.2 in
      let c_ok = require_segment-returns c cycle.0 cycle.1 in
      let e_ok = require_segment-returns e employee.0 employee.1 in
      let same = ok_injective employee.2 in
      let path = (λ i. outbound_key (c_ok.2 i) (e_ok.2 i) (text_of (int (pos n)))) ∙ same in
      subst
        (λ k.
          parse_recording_key is_decimal (str k)
          ≡ some (
              outbound_info c e (text_of (int (pos n)))
                (outbound_transcript c e (text_of (int (pos n))))))
        path (outbound_key-read c e _ (c_ok.0, c_ok.1) (e_ok.0, e_ok.1) (digits n))
