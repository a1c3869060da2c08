-- ===== src/Tests/Pure.antt =====
-- The state machine, the canonical form, the contracts and the attempt ids.
use effect_broker.Prelude.{
  Text, text, ◌≡◌, ◌≢◌, refl, ◌↔◌, none, some, [], ◌∷◌, true, list_beq, arith,
}
use effect_broker.Prelude.Int.{pos}
use effect_broker.Prelude.Dict.{lookup}
use effect_broker.Json.{Value, mapping, entry, text_key, int, end}
use effect_broker.Models.{unsafe, EffectContract}
use effect_broker.Errors.{ok}
use effect_broker.Canonical.{canonical_json}
use effect_broker.Canonical.Keys.{NoNul, key_message_injective}
use effect_broker.Canonical.Validation.{Reproducible, canonical_json_total}
use effect_broker.Contracts.{
  validate_contract, parse_safety, ContractSpec, get_contract, from_mapping, contracts_from_specs,
  contract_from_mapping,
}
use effect_broker.Contracts.Validation.{IsHonest, registry-IsHonest}
use effect_broker.Auth.{Settings, from_settings, require_tenant, presented_key, authenticated}
use effect_broker.Auth.Keys.{Configured, require_tenant_iff}
use effect_broker.Tests.Data.{platform}

abbrev spec : ContractSpec
spec = record {
  safety = some (text "unsafe");
  version = none;
  retry_limit = none;
  key_retention = none;
  settlement_bound = none;
}

abbrev email : EffectContract
email = record {
  name = text "email";
  version = text "v1";
  safety = unsafe;
  retry_limit = pos 0;
  key_retention = none;
  settlement_bound = none;
}

registry-IsHonest_example : (email.name ≡ text "email") × IsHonest email
unfolding from_mapping contracts_from_specs contract_from_mapping validate_contract get_contract
    parse_safety text list_beq lookup
registry-IsHonest_example =
    registry-IsHonest ((text "email", spec) ∷ []) (record { by_tool = (text "email", email) ∷ [] })
      (text "email") email refl refl

abbrev arguments : Value
arguments = mapping (entry (text_key (text "amount")) (int (pos 5)) end)

canonical_json_total_example :
    ((s : Text) × (canonical_json arguments ≡ ok s)) ↔ Reproducible arguments
canonical_json_total_example = canonical_json_total arguments

-- The development key alone.
abbrev settings : Settings
settings = record {
  api_key_hashes = [];
  dev_api_key_enabled = true;
  dev_api_key = text "dev-effect-broker-key";
  dev_tenant_id = text "tenant-dev";
}

require_tenant_iff_example :
    (require_tenant platform (from_settings platform settings) (some (text "stolen")) none
      ≡ authenticated (text "tenant-dev"))
    ↔ ((raw_key : Text) × (presented_key none (some (text "stolen")) ≡ some raw_key)
        × (raw_key ≢ [])
        × Configured platform settings raw_key (text "tenant-dev"))
require_tenant_iff_example =
    require_tenant_iff platform settings (some (text "stolen")) none (text "tenant-dev")

no_nul : NoNul (text "acme")
unfolding text
no_nul = (
  λ e. omega (arith, e),
  (λ e. omega (arith, e), (λ e. omega (arith, e), (λ e. omega (arith, e), tt))),
)

key_message_injective_example : (text "acme" ≡ text "acme") × (text "op" ≡ text "op")
key_message_injective_example =
    key_message_injective (text "acme") (text "acme") (text "op") (text "op") no_nul no_nul refl
