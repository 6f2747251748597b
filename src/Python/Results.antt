-- ===== src/Python/Results.antt =====
-- A call of a Python function returns a value or raises. The message of an exception is dropped.
use emergency_contact.Prelude.{◌≡◌, refl, ◌⊎◌, inl, inr, String, Bool, true, false}

pub data Error : Type 0 where
  type_error value_error key_error overflow_error permission_error attribute_error assertion_error
        exhausted :
      Error
  client_error : String → Error

pub data Result {ℓ} (A : Type ℓ) : Type ℓ where
  err : Error → Result A
  ok : A → Result A

-- `if test: raise e`
abbrev pub raise_if : Bool → Error → Result (Unit {0})
raise_if false e = ok tt
raise_if true e = err e

-- The statements after a call, which a raised exception skips.
infixl 5 ◌>>=◌
abbrev pub ◌>>=◌ {ℓ κ} :
    {Called : Type ℓ} {Next : Type κ} → Result Called → (Called → Result Next) → Result Next
err raised >>= rest = err raised
ok value >>= rest = rest value

-- A statement whose value is not used.
infixl 5 ◌>>◌
abbrev pub ◌>>◌ {ℓ} : {Next : Type ℓ} → Result (Unit {0}) → Result Next → Result Next
statement >> rest = statement >>= λ done. rest

pub Result-cases {ℓ} :
    {A : Type ℓ} (r : Result A) → ((a : A) × (r ≡ ok a)) ⊎ ((e : Error) × (r ≡ err e))
Result-cases (err e) = inr (e, refl)
Result-cases (ok a) = inl (a, refl)

-- Where the statements after a call return, the call has returned.
pub >>=-eq-ok {ℓ κ} :
    {Called : Type ℓ} {Next : Type κ} (call : Result Called) (rest : Called → Result Next)
    {out : Next}
    → (call >>= rest) ≡ ok out
    → (a : Called) × (call ≡ ok a) × (rest a ≡ ok out)
>>=-eq-ok (err e) rest h = cc
>>=-eq-ok (ok a) rest h = (a, refl, h)

pub ok_injective {ℓ} : {A : Type ℓ} {a b : A} → ok a ≡ ok b → a ≡ b
ok_injective h = cc

pub err_injective {ℓ} : {A : Type ℓ} {a b : Error} → ◌≡◌ {A = Result A} (err a) (err b) → a ≡ b
err_injective h = cc
