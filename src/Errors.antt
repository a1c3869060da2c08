-- ===== src/Errors.antt =====
-- The error taxonomy (src/effect_broker/errors.py). An exception carries the data that its message
-- is built from.
use effect_broker.Prelude.{ℕ, Text, ◌≡◌, refl, ◌⊎◌, inl, inr}
use effect_broker.Models.{EffectStatus}

pub data CanonicalFault : Type 0 where
  non_finite_float non_string_key bytes_value unsupported_type : CanonicalFault

pub data ContractFault : Type 0 where
  negative_retry_limit no_key_retention no_settlement_bound : ContractFault
  unsafe_retry unknown_safety unregistered : ContractFault

pub data Error : Type 0 where
  -- the fault and the path of the value
  canonicalization : CanonicalFault → Text → Error
  -- the fault and the contract's name
  contract_error : ContractFault → Text → Error
  -- operation key, existing hash, incoming hash
  payload_conflict : Text → Text → Text → Error
  -- current and target
  invalid_transition : EffectStatus → EffectStatus → Error
  -- effect, expected version, found version
  version_conflict : Text → ℕ → ℕ → Error
  unknown_effect : Text → Error
  adapter_error : Text → Error
  authorization : Error
  -- exceptions that are not of this hierarchy: AmbiguousDispatchError (adapters/base.py),
  -- KeyError, RuntimeError, and any other by its type's name
  ambiguous_dispatch : Text → Error
  key_error : Text → Error
  runtime_error : Text → Error
  other_exception : Text → Error

pub data Result {ℓ} (A : Type ℓ) : Type ℓ where
  ok : A → Result A
  err : Error → Result A

pub Result-cases {ℓ} :
    {A : Type ℓ} (r : Result A) → ((a : A) × (r ≡ ok a)) ⊎ ((e : Error) × (r ≡ err e))
Result-cases (ok a) = inl (a, refl)
Result-cases (err e) = inr (e, refl)

-- Python's exceptions: what follows a raise does not run.
module _ {ℓ κ} {A : Type ℓ} {B : Type κ} where
  infixl 5 ◌>>=◌
  abbrev pub ◌>>=◌ : Result A → (A → Result B) → Result B
  err raised >>= rest = err raised
  ok value >>= rest = rest value

  -- Inversion of a chain that returned.
  pub >>=-eq-ok :
      (first : Result A) (rest : A → Result B) {b : B}
      → (first >>= rest) ≡ ok b
      → (value : A) × (first ≡ ok value) × (rest value ≡ ok b)
  >>=-eq-ok (err raised) rest returned = cc
  >>=-eq-ok (ok value) rest returned = (value, refl, returned)

infixl 5 ◌>>◌
abbrev pub ◌>>◌ {κ} : {B : Type κ} → Result (Unit {0}) → Result B → Result B
check >> rest = check >>= λ _. rest
