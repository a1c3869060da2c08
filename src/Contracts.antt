-- ===== src/Contracts.antt =====
-- Tool contracts (src/effect_broker/contracts.py). `from_yaml` only reads a file and calls
-- `from_mapping`.
pub mod Validation
use effect_broker.Prelude.{
  ℕ, Text, text, Bool, true, false, ◌||◌, ◌&&◌, Option, none, some, List, [], ◌∷◌, if◌then◌else◌,
  ◌==◌, text_eq,
}
use effect_broker.Prelude.Int.{ℤ, pos, leb_ℤ, ltb_ℤ}
use effect_broker.Prelude.Dict.{Dict, lookup}
use effect_broker.Models.{
  SafetyClass, transactional, idempotent, reconcilable, unsafe, safety_eq, safety_beq,
  EffectContract, Duration,
}
use effect_broker.Errors.{
  Result, ok, err, ◌>>=◌, ContractFault, contract_error, negative_retry_limit, no_key_retention,
  no_settlement_bound, unsafe_retry, unknown_safety, unregistered,
}

-- `d is None or d <= timedelta(0)`
unfoldable pub missing_or_nonpositive : Option Duration → Bool
missing_or_nonpositive none = true
missing_or_nonpositive (some d) = leb_ℤ d (pos 0)

-- `d is None or d < timedelta(0)`
unfoldable pub missing_or_negative : Option Duration → Bool
missing_or_negative none = true
missing_or_negative (some d) = ltb_ℤ d (pos 0)

unfoldable pub int_ne_zero : ℤ → Bool
int_ne_zero n = ltb_ℤ n (pos 0) || ltb_ℤ (pos 0) n

unfoldable pub validate_contract : EffectContract → Result EffectContract
unfolding missing_or_nonpositive missing_or_negative int_ne_zero safety_beq
validate_contract contract =
    if ltb_ℤ contract.retry_limit (pos 0)
    then err (contract_error negative_retry_limit contract.name)
    else if contract.safety == idempotent
    then (if missing_or_nonpositive contract.key_retention
        then err (contract_error no_key_retention contract.name)
        else ok contract)
    else if contract.safety == reconcilable
    then (if missing_or_negative contract.settlement_bound
        then err (contract_error no_settlement_bound contract.name)
        else ok contract)
    else if contract.safety == unsafe && int_ne_zero contract.retry_limit
    then err (contract_error unsafe_retry contract.name)
    else ok contract

-- One tool's entry of the configuration. `none` is an absent field; the numbers are those that
-- `int` and `timedelta(seconds=float(…))` make of the field.
pub record ContractSpec : Type 0 where
  pub safety : Option Text
  pub version : Option Text
  pub retry_limit : Option ℤ
  pub key_retention : Option Duration
  pub settlement_bound : Option Duration

-- `SafetyClass(value)`, where `none` is a ValueError
unfoldable pub parse_safety : Text → Option SafetyClass
parse_safety value =
    if value == text "transactional"
    then some transactional
    else if value == text "idempotent"
    then some idempotent
    else if value == text "reconcilable"
    then some reconcilable
    else if value == text "unsafe"
    then some unsafe
    else none

-- `SafetyClass(data["safety"])` with its `except (KeyError, ValueError)`
unfoldable pub safety_of_spec : Text → Option Text → Result SafetyClass
safety_of_spec name none = err (contract_error unknown_safety name)
safety_of_spec name (some value) = elim (parse_safety value) [
  | none ↦ err (contract_error unknown_safety name)
  | some safety ↦ ok safety
]

-- `data.get(field, default)`
unfoldable pub or_default {ℓ} : {A : Type ℓ} → Option A → A → A
or_default none d = d
or_default (some a) d = a

unfoldable pub contract_from_mapping : Text → ContractSpec → Result EffectContract
unfolding safety_of_spec or_default
contract_from_mapping name spec = do
  safety ← safety_of_spec name spec.safety
  validate_contract (record {
    name = name;
    version = or_default spec.version (text "v1");
    safety = safety;
    retry_limit = or_default spec.retry_limit (pos 0);
    key_retention = spec.key_retention;
    settlement_bound = spec.settlement_bound;
  })

pub record ContractRegistry : Type 0 where
  pub by_tool : Dict Text EffectContract

-- `ContractRegistry.get`
unfoldable pub get_contract : ContractRegistry → Text → Result EffectContract
get_contract registry tool = elim (lookup tool registry.by_tool) [
  | none ↦ err (contract_error unregistered tool)
  | some contract ↦ ok contract
]

-- the comprehension of `from_mapping`
unfoldable pub contracts_from_specs : List (Text × ContractSpec) → Result (Dict Text EffectContract)
contracts_from_specs [] = ok []
contracts_from_specs ((tool, spec) ∷ specs) = do
  contract ← contract_from_mapping tool spec
  rest ← contracts_from_specs specs
  ok ((tool, contract) ∷ rest)

unfoldable pub from_mapping : List (Text × ContractSpec) → Result ContractRegistry
from_mapping specs = do by_tool ← contracts_from_specs specs; ok (record { by_tool = by_tool })
