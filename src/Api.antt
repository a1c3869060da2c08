-- ===== src/Api.antt =====
-- The HTTP interface (src/effect_broker/api.py): the handlers over the broker service, for a
-- request that the framework has parsed and authenticated. A response is the body, or the problem
-- that the exception handler makes of a domain error; any other exception is the framework's.
pub mod Tenants
use effect_broker.Prelude.{ℕ, Bool, Text, text, Option, none, some, List, [], ◌∷◌, ◌++◌, map}
use effect_broker.Prelude.Int.{ℤ}
use effect_broker.Json.{JsonObject}
use effect_broker.Models.{
  EffectRecord, EffectRequest, EffectStatus, succeeded, failed_final, compensated, Reservation,
  safety_value, Time, Duration,
}
use effect_broker.Errors.{
  Error, Result, ok, err, canonicalization, contract_error, payload_conflict, invalid_transition,
  version_conflict, unknown_effect, adapter_error, authorization, ambiguous_dispatch, key_error,
  runtime_error, other_exception,
}
use effect_broker.Exec.{Exec, pure, ◌>>=◌, ◌>>◌}
use effect_broker.Contracts.{ContractRegistry}
use effect_broker.Adapters.{AdapterFor}
use effect_broker.Store.{EffectStore}
use effect_broker.World.{World}
use effect_broker.Fenced.{type_name}
use effect_broker.Engine.{submit, get, list, replay_receipt, reconcile, cancel, resolve}

pub record SubmitEffectBody : Type 0 where
  pub operation_key : Text
  pub tool : Text
  pub arguments : JsonObject
  pub requested_by : Text
  pub trace_id : Option Text

-- The durations are those whose `total_seconds` the source sends.
pub record ContractBody : Type 0 where
  pub name : Text
  pub version : Text
  pub safety : Text
  pub retry_limit : ℤ
  pub key_retention_seconds : Option Duration
  pub settlement_bound_seconds : Option Duration

pub record EffectBody : Type 0 where
  pub effect_id : Text
  pub status : EffectStatus
  pub contract : ContractBody
  pub version : ℕ
  pub created_at : Time
  pub updated_at : Time
  pub operation_key : Text
  pub tool : Text
  pub requested_by : Text
  pub trace_id : Option Text

pub record ReservationBody : Type 0 where
  pub effect_id : Text
  pub status : EffectStatus
  pub created : Bool
  pub replayed : Bool

pub record ListEffectsBody : Type 0 where
  pub items : List EffectBody
  pub limit : ℕ
  pub offset : ℕ

-- The literals that `resolution` may be.
pub data ResolutionName : Type 0 where
  succeeded_name failed_final_name compensated_name : ResolutionName

pub record ResolveEffectBody : Type 0 where
  pub resolution : ResolutionName
  pub evidence : JsonObject

pub record CancelEffectBody : Type 0 where
  pub expected_version : ℕ
  pub actor : Text
  pub reason : Text

pub record ReconcileBody : Type 0 where
  pub effect_id : Text
  pub status : EffectStatus

-- `EffectStatus(body.resolution)`
unfoldable pub resolution_status : ResolutionName → EffectStatus
resolution_status succeeded_name = succeeded
resolution_status failed_final_name = failed_final
resolution_status compensated_name = compensated

unfoldable pub effect_body : EffectRecord → EffectBody
effect_body effect = record {
  effect_id = effect.effect_id;
  status = effect.status;
  contract = record {
    name = effect.contract.name;
    version = effect.contract.version;
    safety = safety_value effect.contract.safety;
    retry_limit = effect.contract.retry_limit;
    key_retention_seconds = effect.contract.key_retention;
    settlement_bound_seconds = effect.contract.settlement_bound;
  };
  version = effect.version;
  created_at = effect.created_at;
  updated_at = effect.updated_at;
  operation_key = effect.request.operation_key;
  tool = effect.request.tool;
  requested_by = effect.request.requested_by;
  trace_id = effect.request.trace_id;
}

unfoldable pub status_for_error : Error → ℕ
status_for_error (unknown_effect _) = 404
status_for_error (payload_conflict _ _ _) = 409
status_for_error (invalid_transition _ _) = 409
status_for_error (version_conflict _ _ _) = 409
status_for_error (contract_error _ _) = 422
status_for_error (canonicalization _ _) = 422
status_for_error _ = 500

unfoldable pub title_for_error : Error → Text
title_for_error (unknown_effect _) = text "Effect not found"
title_for_error (payload_conflict _ _ _) = text "Payload conflict"
title_for_error (invalid_transition _ _) = text "Invalid transition"
title_for_error (version_conflict _ _ _) = text "Invalid transition"
title_for_error (contract_error _ _) = text "Contract error"
title_for_error (canonicalization _ _) = text "Canonicalization error"
title_for_error _ = text "Effect broker error"

-- `problem+json`; the detail is the exception's message, carried as the exception.
pub record Problem : Type 0 where
  pub type_uri : Text
  pub title : Text
  pub status : ℕ
  pub detail : Error

unfoldable pub problem_of : Error → Problem
problem_of exc = record {
  type_uri = text "https://effect-broker.local/problems/" ++ type_name exc;
  title = title_for_error exc;
  status = status_for_error exc;
  detail = exc;
}

pub data Response (A : Type 0) : Type 0 where
  body : A → Response A
  problem : Problem → Response A
  unhandled : Error → Response A

-- `@app.exception_handler(EffectBrokerError)`
unfoldable pub domain_error_handler : {A : Type 0} → Error → Response A
domain_error_handler (ambiguous_dispatch m) = unhandled (ambiguous_dispatch m)
domain_error_handler (key_error m) = unhandled (key_error m)
domain_error_handler (runtime_error m) = unhandled (runtime_error m)
domain_error_handler (other_exception m) = unhandled (other_exception m)
domain_error_handler exc = problem (problem_of exc)

respond_with : {A : Type 0} → Result A → Response A
respond_with (ok a) = body a
respond_with (err e) = domain_error_handler e

unfoldable pub respond : {W A : Type 0} → Exec W A → W → Response A × W
unfolding respond_with
respond m w = let (r, w') = m w in (respond_with r, w')

module _ {S T : Type 0} (store : EffectStore S) (contracts : ContractRegistry)
    (adapter_for : Option (AdapterFor T)) where
  unfoldable pub submit_effect : SubmitEffectBody → Text → Exec (World S T) ReservationBody
  submit_effect request tenant_id = do
    reservation ← submit store contracts adapter_for tenant_id (record {
      operation_key = request.operation_key;
      tool = request.tool;
      arguments = request.arguments;
      requested_by = request.requested_by;
      trace_id = request.trace_id;
    })
    pure (record {
      effect_id = reservation.effect.effect_id;
      status = reservation.effect.status;
      created = reservation.created;
      replayed = reservation.replayed;
    })

  unfoldable pub get_effect : Text → Text → Exec (World S T) EffectBody
  get_effect effect_id tenant_id = do
    effect ← get store contracts adapter_for tenant_id effect_id
    pure (effect_body effect)

  unfoldable pub get_receipt : Text → Text → Exec (World S T) JsonObject
  get_receipt effect_id tenant_id = replay_receipt store contracts adapter_for tenant_id effect_id

  unfoldable pub reconcile_effect : Text → Text → Exec (World S T) ReconcileBody
  reconcile_effect effect_id tenant_id = do
    effect ← reconcile store contracts adapter_for tenant_id effect_id
    pure (record { effect_id = effect.effect_id; status = effect.status })

  unfoldable pub list_effects :
      Option EffectStatus → ℕ → ℕ → Text → Exec (World S T) ListEffectsBody
  list_effects status_filter limit offset tenant_id = do
    effects ← list store contracts adapter_for tenant_id status_filter limit offset
    pure (record { items = map effect_body effects; limit = limit; offset = offset })

  unfoldable pub resolve_effect : Text → ResolveEffectBody → Text → Exec (World S T) EffectBody
  unfolding resolution_status
  resolve_effect effect_id request tenant_id = do
    effect ←
        resolve store contracts adapter_for tenant_id effect_id
          (resolution_status request.resolution) request.evidence
    pure (effect_body effect)

  unfoldable pub cancel_effect : Text → CancelEffectBody → Text → Exec (World S T) EffectBody
  cancel_effect effect_id request tenant_id = do
    effect ←
        cancel store contracts adapter_for tenant_id effect_id request.expected_version
          request.actor request.reason
    pure (effect_body effect)
