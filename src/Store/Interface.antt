-- ===== src/Store/Interface.antt =====
-- The persistence contract (src/effect_broker/store/base.py): the operations of `EffectStore`
-- over a state `S`. An operation that reads `datetime.now` takes the answer as its argument
-- `now`.
use effect_broker.Prelude.{ℕ, Text, Option, List}
use effect_broker.Prelude.Int.{ℤ}
use effect_broker.Json.{JsonObject}
use effect_broker.Models.{
  EffectStatus, EffectRequest, EffectContract, EffectRecord, Reservation, Time, Duration,
}
use effect_broker.Errors.{Result}
use effect_broker.Exec.{Exec}
use effect_broker.Platform.{Platform}

-- `tenant_key_provider_from_secret`
unfoldable pub tenant_key_provider_from_secret : Platform → Text → Text → Text
tenant_key_provider_from_secret p broker_secret tenant_id = p.hmac_sha256 broker_secret tenant_id

pub record EffectStore (S : Type 0) : Type 0 where
  pub reserve : Text → EffectRequest → EffectContract → Time → Exec S Reservation
  -- worker, now, lease_for, limit
  pub claim_due : Text → Time → Duration → ℤ → Exec S (List EffectRecord)
  -- effect, expected version, worker
  pub start_attempt : Text → ℕ → Text → Time → Exec S Text
  -- effect, expected version, target, data
  pub transition : Text → ℕ → EffectStatus → JsonObject → Time → Exec S EffectRecord
  pub get : Text → Text → S → Option EffectRecord
  -- tenant, status, limit, offset
  pub list : Text → Option EffectStatus → ℕ → ℕ → S → List EffectRecord
  pub receipt : Text → Text → S → Result (Option JsonObject)
