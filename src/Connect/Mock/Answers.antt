-- ===== src/Connect/Mock/Answers.antt =====
-- What the stand-in answers, whatever the employee.
use native.Mathlib.Omega.{mod_fact}
use emergency_contact.Prelude.{
  ℕ, zero, suc, ◌<◌, String, ◌≡◌, ◌≢◌, refl, ◌↔◌, true, Option, none, some, arith, get_elem?,
}
use emergency_contact.Python.Results.{ok}
use emergency_contact.Python.Values.{str, mem}
use emergency_contact.Connect.Mock.{
  digit_to_mock, require_key, mock_call_result_codes, no_transcript_codes, is_ascii_digit,
  mock_digit, derive_mock_response,
}

-- One of the three codes; there is a transcript exactly when it is not NO_ANSWER or BUSY.
pub record IsAnswer (answer : String × Option String) : Type 0 where
  pub valid : mem answer.0 mock_call_result_codes ≡ true
  pub transcript : (answer.1 ≡ none) ↔ (mem answer.0 no_transcript_codes ≡ true)

abbrev Answered : ℕ → Type 0
Answered d =
    (a : String × Option String) × (require_key (get_elem? digit_to_mock d) ≡ ok a) × IsAnswer a

recorded : (s : String) → IsAnswer ("RECORDED", some s)
unfolding mem
recorded s = record {
  valid = refl;
  transcript = ((λ h. absurd (ground arith)), (λ h. absurd (ground arith)));
}

silent :
    (c : String)
    → mem c no_transcript_codes ≡ true
    → mem c mock_call_result_codes ≡ true
    → IsAnswer (c, none)
silent c h k = record { valid = k; transcript = ((λ e. h), (λ e. refl)) }

answered : (d : ℕ) → d < 10 → Answered d
unfolding require_key mem
answered zero h = (_, refl, recorded _)
answered (suc zero) h = (_, refl, recorded _)
answered (suc (suc zero)) h = (_, refl, recorded _)
answered (suc (suc (suc zero))) h = (_, refl, recorded _)
answered (suc (suc (suc (suc zero)))) h = (_, refl, recorded _)
answered (suc (suc (suc (suc (suc zero))))) h = (_, refl, recorded _)
answered (suc (suc (suc (suc (suc (suc zero)))))) h = (_, refl, recorded _)
answered (suc (suc (suc (suc (suc (suc (suc zero))))))) h = (_, refl, silent "NO_ANSWER" refl refl)
answered (suc (suc (suc (suc (suc (suc (suc (suc zero)))))))) h = (_, refl, silent "BUSY" refl refl)
answered (suc (suc (suc (suc (suc (suc (suc (suc (suc zero))))))))) h = (_, refl, recorded _)
answered (suc (suc (suc (suc (suc (suc (suc (suc (suc (suc n)))))))))) h = absurd (omega arith)

module _ (first_byte : String → ℕ) where
  mock_digit_bound : (s : String) → mock_digit first_byte s < 10
  unfolding mock_digit is_ascii_digit
  mock_digit_bound s = ground (arith, mod_fact (first_byte s) 9)

  -- Every identifier that is not empty gets an answer: RECORDED with a transcript, or NO_ANSWER or
  -- BUSY without one.
  pub derive_mock_response_total :
      (s : String)
      → s ≢ ""
      → (a : String × Option String) × (derive_mock_response first_byte (str s) ≡ ok a) × IsAnswer a
  unfolding derive_mock_response
  derive_mock_response_total String.[] h = absurd (h refl)
  derive_mock_response_total (String.◌∷◌ c s) h =
      answered (mock_digit first_byte (String.◌∷◌ c s)) (mock_digit_bound (String.◌∷◌ c s))
