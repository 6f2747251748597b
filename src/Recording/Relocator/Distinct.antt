-- ===== src/Recording/Relocator/Distinct.antt =====
-- The key of a relocated recording is not one of Connect.
use Prim.Native.Char.{code}
use Prim.Native.String.{◌++◌}
use emergency_contact.Prelude.{
  ℕ, String, ◌≡◌, refl, ap, subst, ◌∙◌, Bool, true, false, Option, none, [], ◌∷◌, if◌then◌else◌,
  arith,
}
use emergency_contact.Prelude.Int.{ℤ, pos, negsuc}
use emergency_contact.Python.Results.{ok, ok_injective, >>=-eq-ok}
use emergency_contact.Python.Values.{Value, str, int}
use emergency_contact.Recording.Keys.{
  has_slash, require_segment, require_seq, derive_target_outbound_key, outbound_key,
}
use emergency_contact.Recording.Parsing.{is_number}
use emergency_contact.Recording.Segments.{has_slash-append}
use emergency_contact.Recording.RoundTrip.{four-split}
use emergency_contact.Recording.Derived.{require_segment-returns, number-given, all_digits-no_slash}
use emergency_contact.Recording.Native.{
  ConnectNativeKeyInfo, native_groups, parse_connect_native_key,
}

module _ (is_decimal : ℕ → Bool) where
  -- A key of four segments is no native one.
  four_segments : (a b c d : String) → native_groups is_decimal false (a ∷ b ∷ c ∷ d ∷ []) ≡ none
  unfolding native_groups
  four_segments a b c d = ground arith

  none_either :
      (b : Bool) (o : Option ConnectNativeKeyInfo) → o ≡ none → (if b then none else o) ≡ none
  none_either true o h = refl
  none_either false o h = h

  outbound_key-not_native :
      (c e seq : String)
      → has_slash c ≡ false
      → has_slash e ≡ false
      → has_slash seq ≡ false
      → parse_connect_native_key is_decimal (str (outbound_key c e seq)) ≡ none
  unfolding parse_connect_native_key outbound_key has_slash
  outbound_key-not_native c e seq hc he hs =
      let last : has_slash (seq ++ ".wav") ≡ false = has_slash-append seq ".wav" hs refl in
      let parts = four-split "recordings" c e (seq ++ ".wav") refl hc he last in
      none_either _ _
        (ap (native_groups is_decimal false) parts ∙ four_segments "recordings" c e (seq ++ ".wav"))

  -- The key of a call is not one that Connect gives. Assumed of `str` is that a number is written with
  -- digits, at least one, and of digits that a slash is none.
  pub derived_key-not_native :
      (slash : is_decimal (code "/") ≡ false) (text_of : Value → String)
      → ((n : ℕ) → is_number is_decimal (text_of (int (pos n))) ≡ true)
      → (c e : String) (n : ℤ) (key : String)
      → derive_target_outbound_key text_of (str c) (str e) (int n) ≡ ok key
      → parse_connect_native_key is_decimal (str key) ≡ none
  unfolding derive_target_outbound_key require_seq
  derived_key-not_native slash text_of digits c e (negsuc n) key h =
      let cycle = >>=-eq-ok (require_segment (str c)) _ h in
      let employee = >>=-eq-ok (require_segment (str e)) _ cycle.2 in let never = employee.2 in cc
  derived_key-not_native slash text_of digits c e (pos n) key h =
      let cycle = >>=-eq-ok (require_segment (str c)) _ h in
      let employee = >>=-eq-ok (require_segment (str e)) _ cycle.2 in
      let c_ok = require_segment-returns c cycle.0 cycle.1 in
      let e_ok = require_segment-returns e employee.0 employee.1 in
      let seq = all_digits-no_slash is_decimal slash _ (number-given is_decimal _ (digits n)).1 in
      subst (λ k. parse_connect_native_key is_decimal (str k) ≡ none)
        ((λ i. outbound_key (c_ok.2 i) (e_ok.2 i) (text_of (int (pos n))))
          ∙ ok_injective employee.2)
        (outbound_key-not_native c e _ c_ok.1 e_ok.1 seq)
