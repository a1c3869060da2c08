-- ===== src/Worker.antt =====
-- The worker (src/effect_broker/worker.py).
pub mod Ordinal
pub mod Loop
pub mod Outcome
pub mod Round
use effect_broker.Prelude.{
  ℕ, Text, text, Bool, true, false, Option, none, some, List, [], ◌∷◌, ◌++◌, if◌then◌else◌,
}
use effect_broker.Prelude.Int.{ℤ, pos, ltb_ℤ}
use effect_broker.Json.{str, JsonObject}
use effect_broker.Models.{
  EffectRecord, EffectStatus, dispatching, outcome_unknown, retryable, failed_final, DispatchResult,
  Time, Duration,
}
use effect_broker.Errors.{
  Error, Result, ok, err, canonicalization, contract_error, payload_conflict, invalid_transition,
  version_conflict, unknown_effect, adapter_error, authorization, ambiguous_dispatch, key_error,
  runtime_error, other_exception,
}
use effect_broker.Exec.{Exec, pure, lift, ◌>>=◌, ◌>>◌}
use effect_broker.Observability.{record_dispatch_attempt}
use effect_broker.Adapters.{EffectAdapter, AdapterFor}
use effect_broker.Store.{EffectStore}
use effect_broker.Store.Rows.{object}
use effect_broker.World.{World, read_clock, update_metrics, on_store, on_target, recover}
use effect_broker.Fenced.{type_name, transition_and_record, transition_committed}
use effect_broker.Worker.Ordinal.{attempt_ordinal}

-- The target status of `_transition_proven_non_commit`.
unfoldable pub status_after_non_commit : ℕ → ℤ → EffectStatus
status_after_non_commit attempts retry_limit =
    if ltb_ℤ (pos attempts) retry_limit then retryable else failed_final

-- The metadata of a proven non-commit, of an ambiguous failure and of an answer without proof.
unfoldable pub non_commit_data : Text → Error → JsonObject
non_commit_data attempt_id exc = object (
    (text "attempt_id", str attempt_id)
    ∷ (text "error", str (type_name exc))
    ∷ (text "reason", str (text "proven_non_commit"))
    ∷ [])

unfoldable pub ambiguous_data : Text → Error → JsonObject
ambiguous_data attempt_id exc = object (
    (text "attempt_id", str attempt_id)
    ∷ (text "error", str (type_name exc))
    ∷ (text "reason", str (text "ambiguous_dispatch"))
    ∷ [])

unfoldable pub unconfirmed_data : Text → JsonObject
unconfirmed_data attempt_id =
    object ((text "attempt_id", str attempt_id) ∷ (text "reason", str (text "not_confirmed")) ∷ [])

module _ {S T : Type 0} (store : EffectStore S) where
  unfoldable pub transition_proven_non_commit :
      EffectRecord → Text → Error → Exec (World S T) EffectRecord
  transition_proven_non_commit effect attempt_id exc =
      transition_and_record store effect
        (status_after_non_commit (attempt_ordinal attempt_id) effect.contract.retry_limit)
        (non_commit_data attempt_id exc)

  -- `except Exception as exc`
  unfoldable pub transition_ambiguous : EffectRecord → Text → Error → Exec (World S T) EffectRecord
  transition_ambiguous effect attempt_id exc =
      transition_and_record store effect outcome_unknown (ambiguous_data attempt_id exc)

  -- The two `except` clauses of `dispatch_once`.
  unfoldable pub handle_dispatch_error : EffectRecord → Text → Error → Exec (World S T) EffectRecord
  handle_dispatch_error effect attempt_id (adapter_error m) =
      transition_proven_non_commit effect attempt_id (adapter_error m)
  handle_dispatch_error effect attempt_id e = transition_ambiguous effect attempt_id e

  -- `if result.committed`
  unfoldable pub persist_result :
      EffectRecord → Text → DispatchResult → Exec (World S T) EffectRecord
  persist_result effect attempt_id result w =
      if result.committed
      then transition_committed store effect attempt_id result w
      else transition_and_record store effect outcome_unknown (unconfirmed_data attempt_id) w

  module _ (adapter_for : AdapterFor T) where
    -- The body of `try`: the target call, and the outcome that is persisted for its answer.
    unfoldable pub attempt_dispatch : EffectRecord → Text → Exec (World S T) EffectRecord
    attempt_dispatch effect attempt_id = do
      adapter ← lift (adapter_for effect)
      result ← on_target (adapter.dispatch effect attempt_id)
      persist_result effect attempt_id result

    -- One round of the loop over the claimed effects.
    unfoldable pub dispatch_effect : Text → EffectRecord → Exec (World S T) EffectRecord
    unfolding object
    dispatch_effect worker_id effect = do
      dispatched ←
          transition_and_record store effect dispatching
            (object ((text "worker_id", str worker_id) ∷ []))
      now ← read_clock
      attempt_id ←
          on_store (store.start_attempt dispatched.effect_id dispatched.version worker_id now)
      update_metrics (record_dispatch_attempt dispatched)
      recover (attempt_dispatch dispatched attempt_id) (handle_dispatch_error dispatched attempt_id)

    unfoldable pub dispatch_all :
        Text → List EffectRecord → List EffectRecord → Exec (World S T) (List EffectRecord)
    dispatch_all worker_id [] results = pure results
    dispatch_all worker_id (effect ∷ effects) results = do
      result ← dispatch_effect worker_id effect
      dispatch_all worker_id effects (results ++ result ∷ [])

    unfoldable pub dispatch_once : Text → Time → Duration → ℤ → Exec (World S T) (List EffectRecord)
    dispatch_once worker_id now lease_for limit = do
      claimed ← on_store (store.claim_due worker_id now lease_for limit)
      dispatch_all worker_id claimed []
