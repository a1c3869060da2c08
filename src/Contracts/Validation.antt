-- ===== src/Contracts/Validation.antt =====
-- What a validated contract promises (src/effect_broker/contracts.py).
use effect_broker.Prelude.{
  ◌≡◌, refl, ◌↔◌, Text, text, text_eq, list_beq, ap, Option, none, some, List, [], ◌∷◌, arith,
}
use effect_broker.Prelude.Int.{ℤ, pos, ◌≤ℤ◌}
use effect_broker.Prelude.Dict.{Dict, lookup}
use effect_broker.Models.{
  SafetyClass, transactional, idempotent, reconcilable, unsafe, safety_value, EffectContract,
  Duration,
}
use effect_broker.Errors.{ok, >>=-eq-ok}
use effect_broker.Contracts.{
  validate_contract, parse_safety, ContractSpec, contract_from_mapping, ContractRegistry,
  get_contract, safety_of_spec, contracts_from_specs, from_mapping,
}

-- An optional duration that is there and at least `least`.
abbrev pub AtLeast : ℤ → Option Duration → Type 0
AtLeast least none = ⊥
AtLeast least (some d) = least ≤ℤ d

-- The promise that the guarantee table asks of each safety class.
pub record IsHonest (c : EffectContract) : Type 0 where
  pub retry_nonneg : pos 0 ≤ℤ c.retry_limit
  pub keeps_key : c.safety ≡ idempotent → AtLeast (pos 1) c.key_retention
  pub settles : c.safety ≡ reconcilable → AtLeast (pos 0) c.settlement_bound
  pub never_retried : c.safety ≡ unsafe → c.retry_limit ≡ pos 0

validate-IsHonest : (c c' : EffectContract) → validate_contract c ≡ ok c' → (c' ≡ c) × IsHonest c
unfolding validate_contract
validate-IsHonest c c' h = ground arith

IsHonest-validate : (c : EffectContract) → IsHonest c → validate_contract c ≡ ok c
unfolding validate_contract
IsHonest-validate c h = ground arith

-- `validate_contract` returns a contract exactly if the contract keeps the promise of its class,
-- and then it returns it unchanged.
pub validate_contract_iff :
    (c c' : EffectContract) → (validate_contract c ≡ ok c') ↔ ((c' ≡ c) × IsHonest c)
validate_contract_iff c c' = (validate-IsHonest c c', λ (e, h). rw e (IsHonest-validate c h))

parse_safety_reads : (t : Text) (c : SafetyClass) → parse_safety t ≡ some c → t ≡ safety_value c
unfolding parse_safety safety_value
parse_safety_reads t c h = ground (
  arith,
  text_eq.beq_iff t (text "transactional"),
  text_eq.beq_iff t (text "idempotent"),
  text_eq.beq_iff t (text "reconcilable"),
  text_eq.beq_iff t (text "unsafe"),
)

parse-safety_value : (c : SafetyClass) → parse_safety (safety_value c) ≡ some c
unfolding parse_safety safety_value text list_beq
parse-safety_value transactional = refl
parse-safety_value idempotent = refl
parse-safety_value reconcilable = refl
parse-safety_value unsafe = refl

-- `SafetyClass(value)` reads exactly the values that the classes print.
pub parse_safety_iff :
    (t : Text) (c : SafetyClass) → (parse_safety t ≡ some c) ↔ (t ≡ safety_value c)
parse_safety_iff t c = (parse_safety_reads t c, λ e. rw e (parse-safety_value c))

from_mapping-IsHonest :
    (name : Text) (spec : ContractSpec) (c : EffectContract)
    → contract_from_mapping name spec ≡ ok c
    → (c.name ≡ name) × IsHonest c
unfolding contract_from_mapping
from_mapping-IsHonest name spec c h =
    let (safety, _, valid) = >>=-eq-ok (safety_of_spec name spec.safety) _ h in
    let (same, honest) = validate-IsHonest _ c valid in
    (ap (λ (k : EffectContract). k.name) same, rw (← same) at honest)

specs-IsHonest :
    (specs : List (Text × ContractSpec)) (d : Dict Text EffectContract) (tool : Text)
    (c : EffectContract)
    → contracts_from_specs specs ≡ ok d
    → lookup tool d ≡ some c
    → (c.name ≡ tool) × IsHonest c
unfolding contracts_from_specs lookup
specs-IsHonest [] d tool c built found = cc
specs-IsHonest ((t, spec) ∷ specs) d tool c built found =
    let (k, first, more) = >>=-eq-ok (contract_from_mapping t spec) _ built in
    let (rest, others, whole) = >>=-eq-ok (contracts_from_specs specs) _ more in
    ground (
      arith,
      from_mapping-IsHonest t spec k first,
      specs-IsHonest specs rest tool c others,
      text_eq.beq_iff t tool,
    )

-- Every contract of a registry that was built from a configuration is honest and bears its
-- tool's name.
pub registry-IsHonest :
    (specs : List (Text × ContractSpec)) (r : ContractRegistry) (tool : Text) (c : EffectContract)
    → from_mapping specs ≡ ok r
    → get_contract r tool ≡ ok c
    → (c.name ≡ tool) × IsHonest c
unfolding from_mapping get_contract
registry-IsHonest specs r tool c built found = ground (arith, specs-IsHonest specs r.by_tool tool c)
