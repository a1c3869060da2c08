-- ===== src/Models.antt =====
-- The domain vocabulary (src/effect_broker/models.py). Times are microseconds since the epoch,
-- durations are microseconds; both are signed.
pub mod Status
pub use Status.{
  EffectStatus, prepared, cancelled, dispatching, retryable, outcome_unknown, reconciling,
  succeeded, failed_final, manual_review, compensated, status_eq, SafetyClass, transactional,
  idempotent, reconcilable, unsafe, safety_eq,
}
unfoldable pub use Status.{
  status_beq, safety_beq, status_value, safety_value, terminal_statuses, contains,
}
use effect_broker.Prelude.{ℕ, Text, Bool, Option}
use effect_broker.Prelude.Int.{ℤ}
use effect_broker.Json.{JsonObject}

abbrev pub Time : Type 0
Time = ℤ

abbrev pub Duration : Type 0
Duration = ℤ

pub record EffectRequest : Type 0 where
  pub operation_key : Text
  pub tool : Text
  pub arguments : JsonObject
  pub requested_by : Text
  pub trace_id : Option Text

pub record EffectContract : Type 0 where
  pub name : Text
  pub version : Text
  pub safety : SafetyClass
  pub retry_limit : ℤ
  pub key_retention : Option Duration
  pub settlement_bound : Option Duration

pub record EffectRecord : Type 0 where
  pub effect_id : Text
  pub tenant_id : Text
  pub request : EffectRequest
  pub request_hash : Text
  pub downstream_key : Text
  pub contract : EffectContract
  pub status : EffectStatus
  pub version : ℕ
  pub created_at : Time
  pub updated_at : Time

pub record Reservation : Type 0 where
  pub effect : EffectRecord
  pub created : Bool
  pub replayed : Bool

pub record DispatchResult : Type 0 where
  pub external_id : Option Text
  pub output : JsonObject
  pub committed : Bool

pub data ProbeStatus : Type 0 where
  committed not_committed unknown : ProbeStatus

pub record ProbeResult : Type 0 where
  pub status : ProbeStatus
  pub external_id : Option Text
  pub output : Option JsonObject
  pub evidence : JsonObject
