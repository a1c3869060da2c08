-- ===== src/Engine.antt =====
-- The public service (src/effect_broker/engine.py).
pub mod Cancel
use effect_broker.Prelude.{
  ℕ, Text, text, Bool, true, false, not, Option, none, some, List, [], ◌∷◌, if◌then◌else◌, ◌==◌,
  nat_beq,
}
use effect_broker.Json.{str, mapping, JsonObject}
use effect_broker.Models.{
  EffectRecord, EffectRequest, EffectContract, Reservation, EffectStatus, status_eq, status_beq,
  contains, prepared, cancelled, retryable, succeeded, failed_final, manual_review, compensated,
}
use effect_broker.Errors.{
  Error, Result, ok, err, canonicalization, contract_error, payload_conflict, invalid_transition,
  version_conflict, unknown_effect, adapter_error, authorization, ambiguous_dispatch, key_error,
  runtime_error, other_exception,
}
use effect_broker.Exec.{Exec, pure, raise, lift, gets, ◌>>=◌, ◌>>◌}
use effect_broker.Observability.{record_conflict, record_submit, record_transition}
use effect_broker.Contracts.{ContractRegistry, get_contract}
use effect_broker.Adapters.{AdapterFor}
use effect_broker.Store.{EffectStore}
use effect_broker.Store.Rows.{object}
use effect_broker.World.{World, read_clock, update_metrics, on_store, recover}
use effect_broker.Reconcile.{reconcile_once}

-- `if x is None: raise UnknownEffectError(effect_id)`
unfoldable pub or_unknown {ℓ} : {A : Type ℓ} → Text → Option A → Result A
or_unknown effect_id none = err (unknown_effect effect_id)
or_unknown effect_id (some a) = ok a

unfoldable pub cancellable : EffectStatus → Bool
unfolding contains status_beq
cancellable status = contains status (prepared ∷ retryable ∷ [])

unfoldable pub is_resolution : EffectStatus → Bool
unfolding contains status_beq
is_resolution status = contains status (succeeded ∷ failed_final ∷ compensated ∷ [])

-- The guards of `cancel` on the effect that was read.
unfoldable pub check_cancel : Text → ℕ → EffectRecord → Result (Unit {0})
check_cancel effect_id expected_version effect =
    if not (nat_beq effect.version expected_version)
    then err (version_conflict effect_id expected_version effect.version)
    else if not (cancellable effect.status)
    then err (invalid_transition effect.status cancelled)
    else ok tt

-- The guards of `resolve`.
unfoldable pub check_resolve : EffectStatus → EffectRecord → Result (Unit {0})
unfolding status_beq
check_resolve resolution effect =
    if not (effect.status == manual_review)
    then err (invalid_transition effect.status resolution)
    else if not (is_resolution resolution)
    then err (invalid_transition effect.status resolution)
    else ok tt

module _ {S T : Type 0} (store : EffectStore S) (contracts : ContractRegistry)
    (adapter_for : Option (AdapterFor T)) where
  -- `except PayloadConflictError: record_conflict(); raise`
  unfoldable pub count_conflict : {A : Type 0} → Error → Exec (World S T) A
  count_conflict (payload_conflict key existing incoming) w = (
    err (payload_conflict key existing incoming),
    record w { metrics = record_conflict w.metrics },
  )
  count_conflict e w = (err e, w)

  unfoldable pub submit : Text → EffectRequest → Exec (World S T) Reservation
  submit tenant_id request = do
    contract ← lift (get_contract contracts request.tool)
    now ← read_clock
    reservation ← recover (on_store (store.reserve tenant_id request contract now)) count_conflict
    update_metrics (record_submit reservation)
    pure reservation

  unfoldable pub get : Text → Text → Exec (World S T) EffectRecord
  unfolding or_unknown
  get tenant_id effect_id w = (or_unknown effect_id (store.get tenant_id effect_id w.store), w)

  unfoldable pub list : Text → Option EffectStatus → ℕ → ℕ → Exec (World S T) (List EffectRecord)
  list tenant_id status limit offset = gets (λ w. store.list tenant_id status limit offset w.store)

  unfoldable pub replay_receipt : Text → Text → Exec (World S T) JsonObject
  unfolding or_unknown
  replay_receipt tenant_id effect_id = do
    found ← λ w. (store.receipt tenant_id effect_id w.store, w)
    lift (or_unknown effect_id found)

  reconcile_with : Option (AdapterFor T) → Text → Text → Exec (World S T) EffectRecord
  reconcile_with none tenant_id effect_id =
      raise (runtime_error (text "EffectBroker.reconcile requires adapter_for"))
  reconcile_with (some adapters) tenant_id effect_id = do
    effect ← get tenant_id effect_id
    reconcile_once store adapters effect

  unfoldable pub reconcile : Text → Text → Exec (World S T) EffectRecord
  unfolding reconcile_with
  reconcile = reconcile_with adapter_for

  unfoldable pub cancel : Text → Text → ℕ → Text → Text → Exec (World S T) EffectRecord
  unfolding object
  cancel tenant_id effect_id expected_version actor reason = do
    effect ← get tenant_id effect_id
    lift (check_cancel effect_id expected_version effect)
    now ← read_clock
    after ← on_store (
        store.transition effect.effect_id expected_version cancelled
          (object ((text "actor", str actor) ∷ (text "reason", str reason) ∷ [])) now)
    seen ← read_clock
    update_metrics (record_transition effect after seen)
    pure after

  unfoldable pub resolve : Text → Text → EffectStatus → JsonObject → Exec (World S T) EffectRecord
  unfolding object
  resolve tenant_id effect_id resolution evidence = do
    effect ← get tenant_id effect_id
    lift (check_resolve resolution effect)
    now ← read_clock
    on_store (
        store.transition effect.effect_id effect.version resolution
          (object
            ((text "evidence", mapping evidence) ∷ (text "actor", str (text "operator")) ∷ []))
          now)
