-- ===== src/Fenced.antt =====
-- The helpers that src/effect_broker/worker.py and src/effect_broker/reconcile.py both define:
-- `_transition_and_record` and `_transition_committed`.
pub mod Attempt
pub mod Laws
use effect_broker.Prelude.{ℕ, Text, text, Option, none, some, [], ◌∷◌}
use effect_broker.Json.{Value, null, str, mapping, JsonObject}
use effect_broker.Models.{EffectRecord, EffectStatus, succeeded, DispatchResult}
use effect_broker.Errors.{
  Error, Result, ok, err, canonicalization, contract_error, payload_conflict, invalid_transition,
  version_conflict, unknown_effect, adapter_error, authorization, ambiguous_dispatch, key_error,
  runtime_error, other_exception,
}
use effect_broker.Exec.{Exec, pure, raise, ◌>>=◌, ◌>>◌}
use effect_broker.Observability.{record_transition, record_fenced_stale_write}
use effect_broker.Store.{EffectStore}
use effect_broker.Store.Rows.{object}
use effect_broker.World.{World, read_clock, update_metrics, on_store, recover}

-- `type(exc).__name__`
unfoldable pub type_name : Error → Text
type_name (canonicalization _ _) = text "CanonicalizationError"
type_name (contract_error _ _) = text "ContractError"
type_name (payload_conflict _ _ _) = text "PayloadConflictError"
type_name (invalid_transition _ _) = text "InvalidTransitionError"
type_name (version_conflict _ _ _) = text "VersionConflictError"
type_name (unknown_effect _) = text "UnknownEffectError"
type_name (adapter_error _) = text "AdapterError"
type_name authorization = text "AuthorizationError"
type_name (ambiguous_dispatch _) = text "AmbiguousDispatchError"
type_name (key_error _) = text "KeyError"
type_name (runtime_error _) = text "RuntimeError"
type_name (other_exception name) = name

-- A member that may be `None`.
unfoldable pub optional_text : Option Text → Value
optional_text none = null
optional_text (some t) = str t

module _ {S T : Type 0} where
  -- `except VersionConflictError: record_fenced_stale_write(); raise`
  unfoldable pub count_fenced : {A : Type 0} → Error → Exec (World S T) A
  count_fenced (version_conflict id expected found) w = (
    err (version_conflict id expected found),
    record w { metrics = record_fenced_stale_write w.metrics },
  )
  count_fenced e w = (err e, w)

-- The metadata of a success.
unfoldable pub committed_data : Text → DispatchResult → JsonObject
committed_data attempt_id result = object (
    (text "attempt_id", str attempt_id)
    ∷ (text "external_id", optional_text result.external_id)
    ∷ (text "output", mapping result.output)
    ∷ [])

module _ {S T : Type 0} (store : EffectStore S) where
  unfoldable pub transition_and_record :
      EffectRecord → EffectStatus → JsonObject → Exec (World S T) EffectRecord
  unfolding count_fenced
  transition_and_record before target metadata = do
    now ← read_clock
    after ←
        recover (on_store (store.transition before.effect_id before.version target metadata now))
          count_fenced
    seen ← read_clock
    update_metrics (record_transition before after seen)
    pure after

  unfoldable pub transition_committed :
      EffectRecord → Text → DispatchResult → Exec (World S T) EffectRecord
  transition_committed effect attempt_id result =
      transition_and_record effect succeeded (committed_data attempt_id result)
