-- ===== src/Reconcile.antt =====
-- The reconciler (src/effect_broker/reconcile.py).
pub mod Answers
pub mod Exclusive
pub mod Failures
pub mod Redispatch
pub mod Routes
use effect_broker.Prelude.{
  Text, text, Bool, true, false, not, Option, none, some, [], ◌∷◌, if◌then◌else◌, ◌==◌,
}
use effect_broker.Prelude.Int.{◌+ℤ◌, leb_ℤ}
use effect_broker.Json.{str, mapping, JsonObject, end}
use effect_broker.Models.{
  EffectRecord, EffectStatus, status_eq, status_beq, prepared, dispatching, outcome_unknown,
  reconciling, retryable, succeeded, manual_review, DispatchResult, ProbeResult, ProbeStatus,
  committed, not_committed, unknown, Time, Duration,
}
use effect_broker.Errors.{
  Error, Result, ok, err, canonicalization, contract_error, payload_conflict, invalid_transition,
  version_conflict, unknown_effect, adapter_error, authorization, ambiguous_dispatch, key_error,
  runtime_error, other_exception,
}
use effect_broker.Exec.{Exec, pure, lift, ◌>>=◌, ◌>>◌}
use effect_broker.Observability.{
  record_dispatch_attempt, record_reconciliation_outcome, record_retention_remaining,
}
use effect_broker.StateMachine.{route_unknown}
use effect_broker.Adapters.{EffectAdapter, AdapterFor}
use effect_broker.Store.{EffectStore}
use effect_broker.Store.Rows.{object}
use effect_broker.World.{World, read_clock, update_metrics, on_store, on_target, recover}
use effect_broker.Fenced.{type_name, optional_text, transition_and_record, transition_committed}

-- `_key_retention_valid` at the time `now`
unfoldable pub retention_valid : Time → Time → Option Duration → Bool
retention_valid now created_at none = false
retention_valid now created_at (some retention) = leb_ℤ now (created_at +ℤ retention)

unfoldable pub key_retention_valid : EffectRecord → Time → Bool
unfolding retention_valid
key_retention_valid effect now = retention_valid now effect.created_at effect.contract.key_retention

-- The value of a probe's status.
unfoldable pub probe_value : ProbeStatus → Text
probe_value committed = text "committed"
probe_value not_committed = text "not_committed"
probe_value unknown = text "unknown"

-- `probe.output or {}`
unfoldable pub output_or_empty : Option JsonObject → JsonObject
output_or_empty none = end
output_or_empty (some output) = output

module _ {S T : Type 0} (store : EffectStore S) where
  -- The transition for what a probe has found.
  unfoldable pub persist_probe :
      EffectRecord → ProbeResult → ProbeStatus → Exec (World S T) EffectRecord
  unfolding object optional_text output_or_empty
  persist_probe effect probe committed = transition_and_record store effect succeeded (
      object (
        (text "external_id", optional_text probe.external_id)
        ∷ (text "output", mapping (output_or_empty probe.output))
        ∷ (text "evidence", mapping probe.evidence)
        ∷ []))
  persist_probe effect probe not_committed =
      transition_and_record store effect prepared
        (object ((text "evidence", mapping probe.evidence) ∷ []))
  persist_probe effect probe unknown = transition_and_record store effect manual_review (
      object (
        (text "evidence", mapping probe.evidence)
        ∷ (text "reason", str (text "probe_unknown"))
        ∷ []))

  -- The two `except` clauses of a redispatch.
  unfoldable pub redispatch_failed : EffectRecord → Text → Error → Exec (World S T) EffectRecord
  unfolding object
  redispatch_failed effect attempt_id (adapter_error m) = do
    update_metrics (record_reconciliation_outcome (text "proven_non_commit"))
    transition_and_record store effect retryable (
        object (
          (text "attempt_id", str attempt_id)
          ∷ (text "error", str (type_name (adapter_error m)))
          ∷ (text "reason", str (text "proven_non_commit_after_redispatch"))
          ∷ []))
  redispatch_failed effect attempt_id e = do
    update_metrics (record_reconciliation_outcome (text "redispatch_unknown"))
    transition_and_record store effect outcome_unknown (
        object (
          (text "attempt_id", str attempt_id)
          ∷ (text "error", str (type_name e))
          ∷ (text "reason", str (text "ambiguous_redispatch"))
          ∷ []))

  unfoldable pub redispatch_answered :
      EffectRecord → Text → DispatchResult → Bool → Exec (World S T) EffectRecord
  unfolding object
  redispatch_answered effect attempt_id result true = do
    update_metrics (record_reconciliation_outcome (text "redispatch_committed"))
    transition_committed store effect attempt_id result
  redispatch_answered effect attempt_id result false = do
    update_metrics (record_reconciliation_outcome (text "redispatch_unknown"))
    transition_and_record store effect outcome_unknown (
        object
          ((text "attempt_id", str attempt_id) ∷ (text "reason", str (text "not_confirmed")) ∷ []))

  -- What follows the target call: only the call itself stands under `try`.
  unfoldable pub after_redispatch :
      EffectRecord → Text → Result DispatchResult → Exec (World S T) EffectRecord
  after_redispatch effect attempt_id (ok result) =
      redispatch_answered effect attempt_id result result.committed
  after_redispatch effect attempt_id (err e) = redispatch_failed effect attempt_id e

  module _ (adapter_for : AdapterFor T) where
    -- The call of the adapter, whose exceptions are values here.
    unfoldable pub call_target :
        EffectAdapter T → EffectRecord → Text → Exec (World S T) (Result DispatchResult)
    call_target adapter effect attempt_id w =
        let (r, t) = adapter.dispatch effect attempt_id w.target in (ok r, record w { target = t })

    unfoldable pub redispatch : EffectRecord → Exec (World S T) EffectRecord
    unfolding object
    redispatch effect = do
      dispatched ←
          transition_and_record store effect dispatching
            (object ((text "reason", str (text "idempotent_redispatch")) ∷ []))
      now ← read_clock
      attempt_id ←
          on_store
            (store.start_attempt dispatched.effect_id dispatched.version (text "reconciler") now)
      update_metrics (record_dispatch_attempt dispatched)
      adapter ← lift (adapter_for dispatched)
      answer ← call_target adapter dispatched attempt_id
      after_redispatch dispatched attempt_id answer

    unfoldable pub redispatch_if : EffectRecord → Bool → Exec (World S T) EffectRecord
    unfolding object
    redispatch_if effect true = redispatch effect
    redispatch_if effect false = do
      update_metrics (record_reconciliation_outcome (text "retention_expired"))
      transition_and_record store effect manual_review
          (object ((text "reason", str (text "idempotency_key_retention_expired")) ∷ []))

    -- The route of the idempotent class.
    unfoldable pub reconcile_by_key : EffectRecord → Exec (World S T) EffectRecord
    unfolding redispatch_if
    reconcile_by_key effect = do
      seen ← read_clock
      update_metrics (record_retention_remaining effect seen)
      now ← read_clock
      redispatch_if effect (key_retention_valid effect now)

    -- The route of the classes that have an authority to ask.
    unfoldable pub reconcile_by_probe : EffectRecord → Exec (World S T) EffectRecord
    unfolding object
    reconcile_by_probe effect = do
      probing ←
          transition_and_record store effect reconciling
            (object ((text "reason", str (text "authoritative_probe")) ∷ []))
      adapter ← lift (adapter_for probing)
      probe ← on_target (adapter.probe probing)
      update_metrics (record_reconciliation_outcome (probe_value probe.status))
      persist_probe probing probe probe.status

    -- The route of the unsafe class.
    unfoldable pub reconcile_by_operator : EffectRecord → Exec (World S T) EffectRecord
    unfolding object
    reconcile_by_operator effect = do
      update_metrics (record_reconciliation_outcome (text "unsafe_unknown"))
      transition_and_record store effect manual_review
          (object ((text "reason", str (text "unsafe_unknown")) ∷ []))

    unfoldable pub reconcile_once : EffectRecord → Exec (World S T) EffectRecord
    unfolding status_beq
    reconcile_once effect w =
        if route_unknown effect.contract.safety == dispatching
        then reconcile_by_key effect w
        else if route_unknown effect.contract.safety == reconciling
        then reconcile_by_probe effect w
        else reconcile_by_operator effect w
