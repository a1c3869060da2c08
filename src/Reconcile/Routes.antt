-- ===== src/Reconcile/Routes.antt =====
-- Where `reconcile_once` of src/effect_broker/reconcile.py takes an effect without a call of the
-- target, over any store that keeps the laws.
use effect_broker.Prelude.{
  ◌+◌, text, text_eq, ◌≡◌, ◌⊎◌, inl, inr, refl, ◌∙◌, some, [], ◌∷◌, true, false, arith,
}
use effect_broker.Json.{str}
use effect_broker.Models.{
  EffectRecord, dispatching, reconciling, manual_review, SafetyClass, transactional, idempotent,
  reconcilable, unsafe,
}
use effect_broker.Errors.{ok, err, invalid_transition}
use effect_broker.Observability.{Metrics, record_reconciliation_outcome, record_retention_remaining}
use effect_broker.StateMachine.{is_allowed, route_unknown}
use effect_broker.Adapters.{AdapterFor}
use effect_broker.Store.{EffectStore}
use effect_broker.Store.Laws.{StoreView, StoreLaws}
use effect_broker.Store.Rows.{object, updated_record}
use effect_broker.World.{World}
use effect_broker.Fenced.Laws.{Moves, record-Moves, record_forbidden}
use effect_broker.Reconcile.{
  key_retention_valid, reconcile_once, reconcile_by_key, reconcile_by_probe, reconcile_by_operator,
  redispatch_if, redispatch,
}

module _ {S T : Type 0} (store : EffectStore S) (view : StoreView S) (laws : StoreLaws store view)
    (adapter_for : AdapterFor T) where
  module _ (effect : EffectRecord) (w : World S T) where
    pub takes_key :
        effect.contract.safety ≡ idempotent
        → reconcile_once store adapter_for effect w ≡ reconcile_by_key store adapter_for effect w
    unfolding reconcile_once route_unknown
    takes_key h = rw h

    pub takes_probe :
        route_unknown effect.contract.safety ≡ reconciling
        → reconcile_once store adapter_for effect w ≡ reconcile_by_probe store adapter_for effect w
    unfolding reconcile_once
    takes_probe h = rw h

    pub takes_operator :
        effect.contract.safety ≡ unsafe
        → reconcile_once store adapter_for effect w
          ≡ reconcile_by_operator store adapter_for effect w
    unfolding reconcile_once route_unknown
    takes_operator h = rw h

  -- A current unsafe effect whose status allows it goes to manual review: the target is neither called nor asked, whatever the
  -- adapter is.
  pub unsafe_goes_to_review :
      (effect : EffectRecord) (w : World S T)
      → view.Valid w.store
      → view.find effect.effect_id w.store ≡ some effect
      → effect.contract.safety ≡ unsafe
      → is_allowed effect.status manual_review ≡ true
      → (w' : World S T) × (reconcile_once store adapter_for effect w
          ≡ (ok (updated_record effect manual_review (w.clock w.reads)), w'))
        × Moves store view laws effect
            (updated_record effect manual_review (w.clock w.reads))
            (record w { metrics = record_reconciliation_outcome (text "unsafe_unknown") w.metrics })
            w'
  unfolding reconcile_by_operator
  unsafe_goes_to_review effect w valid current is_unsafe allowed =
      let (w', moved, m) =
        record-Moves store view laws effect manual_review
          (object ((text "reason", str (text "unsafe_unknown")) ∷ []))
          (record w { metrics = record_reconciliation_outcome (text "unsafe_unknown") w.metrics })
          valid current allowed in
      (w', takes_operator effect w is_unsafe ∙ moved, m)

  -- A current idempotent effect whose key retention is over, in a status that allows it, goes to manual review: it is
  -- not dispatched again.
  pub expired_key_goes_to_review :
      (effect : EffectRecord) (w : World S T)
      → view.Valid w.store
      → view.find effect.effect_id w.store ≡ some effect
      → effect.contract.safety ≡ idempotent
      → key_retention_valid effect (w.clock (w.reads + 1)) ≡ false
      → is_allowed effect.status manual_review ≡ true
      → (w' : World S T) × (m : Metrics) × (reconcile_once store adapter_for effect w
          ≡ (ok (updated_record effect manual_review (w.clock (w.reads + 1 + 1))), w'))
        × Moves store view laws effect
            (updated_record effect manual_review (w.clock (w.reads + 1 + 1)))
            (record w { metrics = m; reads = w.reads + 1 + 1 })
            w'
  unfolding reconcile_by_key redispatch_if
  expired_key_goes_to_review effect w valid current is_idempotent expired allowed =
      let metrics =
        record_reconciliation_outcome (text "retention_expired")
          (record_retention_remaining effect (w.clock w.reads) w.metrics) in
      let (w', moved, m) =
        record-Moves store view laws effect manual_review
          (object ((text "reason", str (text "idempotency_key_retention_expired")) ∷ []))
          (record w { metrics = metrics; reads = w.reads + 1 + 1 }) valid current allowed in
      (w', metrics, takes_key effect w is_idempotent ∙ rw expired moved, m)

  -- The three routes.
  pub routes : (c : SafetyClass) → (c ≡ idempotent) ⊎ (route_unknown c ≡ reconciling) ⊎ (c ≡ unsafe)
  unfolding route_unknown
  routes transactional = inr (inl refl)
  routes idempotent = inl refl
  routes reconcilable = inr (inl refl)
  routes unsafe = inr (inr refl)

  idempotent_route : {c : SafetyClass} → c ≡ idempotent → route_unknown c ≡ dispatching
  unfolding route_unknown
  idempotent_route h = rw h

  unsafe_route : {c : SafetyClass} → c ≡ unsafe → route_unknown c ≡ manual_review
  unfolding route_unknown
  unsafe_route h = rw h

  -- An effect whose status does not allow the first step of its route is refused: the store and
  -- the target stay as they were. An idempotent effect takes the route of a live key here.
  pub wrong_status_is_refused :
      (effect : EffectRecord) (w : World S T)
      → view.find effect.effect_id w.store ≡ some effect
      → is_allowed effect.status (route_unknown effect.contract.safety) ≡ false
      → (effect.contract.safety ≡ idempotent
          → key_retention_valid effect (w.clock (w.reads + 1)) ≡ true)
      → (w' : World S T) × (reconcile_once store adapter_for effect w
          ≡ (err (invalid_transition effect.status (route_unknown effect.contract.safety)), w'))
        × (w'.store ≡ w.store)
        × (w'.target ≡ w.target)
  unfolding reconcile_by_key reconcile_by_probe reconcile_by_operator redispatch_if redispatch
  wrong_status_is_refused effect w current no_edge live = elim (routes effect.contract.safety) [
    | inl key ↦
        let to_dispatching = idempotent_route key in
        let w1 = record w {
          metrics = record_retention_remaining effect (w.clock w.reads) w.metrics;
          reads = w.reads + 1 + 1;
        } in
        (
          record w1 { reads = w.reads + 1 + 1 + 1 },
          takes_key effect w key
              ∙ ground (
                arith,
                live key,
                to_dispatching,
                record_forbidden store view laws effect dispatching
                    (object ((text "reason", str (text "idempotent_redispatch")) ∷ [])) w1 current
                    (rw (← to_dispatching) no_edge),
              ),
          refl,
          refl,
        )
    | inr (inl asks) ↦ (
      record w { reads = w.reads + 1 },
      takes_probe effect w asks
          ∙ ground (
            arith,
            asks,
            record_forbidden store view laws effect reconciling
                (object ((text "reason", str (text "authoritative_probe")) ∷ [])) w current
                (rw (← asks) no_edge),
          ),
      refl,
      refl,
    )
    | inr (inr review) ↦
        let to_review = unsafe_route review in
        let w1 = record w {
          metrics = record_reconciliation_outcome (text "unsafe_unknown") w.metrics;
        } in
        (
          record w1 { reads = w.reads + 1 },
          takes_operator effect w review
              ∙ ground (
                arith,
                to_review,
                record_forbidden store view laws effect manual_review
                    (object ((text "reason", str (text "unsafe_unknown")) ∷ [])) w1 current
                    (rw (← to_review) no_edge),
              ),
          refl,
          refl,
        )
  ]
