-- ===== src/Reconcile/Exclusive.antt =====
-- Reconcilers that come second (src/effect_broker/reconcile.py), over any store that keeps the laws:
-- one holds an old version of the effect, or reads it while another one works on it or later.
use effect_broker.Prelude.{
  ap, ◌+◌, text, text_eq, ◌≡◌, ◌≢◌, refl, ◌∙◌, some, [], ◌∷◌, true, false, ◌⊎◌, inl, inr,
  Bool-cases, ◌==◌, ==_eq, ==_refl, arith,
}
use effect_broker.Json.{JsonObject, str}
use effect_broker.Models.{
  EffectRecord, EffectStatus, SafetyClass, idempotent, safety_eq, dispatching, reconciling,
  succeeded, manual_review,
}
use effect_broker.Errors.{Error, version_conflict, err, invalid_transition}
use effect_broker.Observability.{
  record_fenced_stale_write, record_reconciliation_outcome, record_retention_remaining,
}
use effect_broker.StateMachine.{is_allowed, route_unknown}
use effect_broker.Adapters.{AdapterFor}
use effect_broker.Store.{EffectStore}
use effect_broker.Store.Laws.{StoreView, StoreLaws}
use effect_broker.Store.Rows.{object}
use effect_broker.World.{World}
use effect_broker.Fenced.{transition_and_record}
use effect_broker.Fenced.Laws.{record_fenced, record_forbidden}
use effect_broker.Reconcile.{
  key_retention_valid, reconcile_once, reconcile_by_key, redispatch_if, redispatch,
  reconcile_by_probe, reconcile_by_operator,
}
use effect_broker.Reconcile.Routes.{
  routes, takes_key, takes_probe, takes_operator, wrong_status_is_refused,
}

-- A reconciler has taken up an effect of the class, or is done with it.
abbrev pub Taken : SafetyClass → EffectStatus → Type 0
Taken c status = (status ≡ route_unknown c) ⊎ (status ≡ succeeded) ⊎ (status ≡ manual_review)

no_route :
    (status : EffectStatus) (c : SafetyClass)
    → Taken c status
    → is_allowed status (route_unknown c) ≡ false
unfolding is_allowed route_unknown
no_route status c h = ground (arith, h)

no_review :
    (status : EffectStatus) (c : SafetyClass)
    → c ≡ idempotent
    → Taken c status
    → is_allowed status manual_review ≡ false
unfolding is_allowed route_unknown
no_review status c key h = ground (arith, h, key)

module _ {S : Type 0} (store : EffectStore S) (view : StoreView S)
    (laws : StoreLaws store view) where
  -- The key of an idempotent effect that has expired leads to review, which is closed too.
  module _ {T : Type 0} (adapter_for : AdapterFor T) (f : EffectRecord) (w : World S T)
      (current : view.find f.effect_id w.store ≡ some f)
      (taken : Taken f.contract.safety f.status) where
    expired_is_refused :
        f.contract.safety ≡ idempotent
        → key_retention_valid f (w.clock (w.reads + 1)) ≡ false
        → (w' : World S T) × (reconcile_once store adapter_for f w
            ≡ (err (invalid_transition f.status manual_review), w'))
          × (w'.store ≡ w.store)
          × (w'.target ≡ w.target)
    unfolding reconcile_by_key redispatch_if
    expired_is_refused key expired =
        let w1 = record w {
          metrics =
              record_reconciliation_outcome (text "retention_expired")
                (record_retention_remaining f (w.clock w.reads) w.metrics);
          reads = w.reads + 1 + 1;
        } in
        (
          record w1 { reads = w.reads + 1 + 1 + 1 },
          takes_key store view laws adapter_for f w key
              ∙ ground (
                arith,
                expired,
                record_forbidden store view laws f manual_review
                    (object ((text "reason", str (text "idempotency_key_retention_expired")) ∷ []))
                    w1 current (no_review f.status f.contract.safety key taken),
              ),
          refl,
          refl,
        )

    by_route :
        (f.contract.safety ≡ idempotent → key_retention_valid f (w.clock (w.reads + 1)) ≡ true)
        → (status : EffectStatus) × (w' : World S T) × (reconcile_once store adapter_for f w
            ≡ (err (invalid_transition f.status status), w'))
          × (w'.store ≡ w.store)
          × (w'.target ≡ w.target)
    by_route live =
        let (w', refused, same_store, same_target) =
          wrong_status_is_refused store view laws adapter_for f w current
            (no_route f.status f.contract.safety taken) live in
        (route_unknown f.contract.safety, w', refused, same_store, same_target)

    pub taken_is_refused :
        (status : EffectStatus) × (w' : World S T) × (reconcile_once store adapter_for f w
          ≡ (err (invalid_transition f.status status), w'))
        × (w'.store ≡ w.store)
        × (w'.target ≡ w.target)
    taken_is_refused = elim (Bool-cases (f.contract.safety == idempotent)) [
      | inl same ↦ elim (Bool-cases (key_retention_valid f (w.clock (w.reads + 1)))) [
        | inl live ↦ by_route (λ _. live)
        | inr expired ↦
            let (w', refused, same_store, same_target) =
              expired_is_refused (==_eq f.contract.safety idempotent same) expired in
            (manual_review, w', refused, same_store, same_target)
      ]
      | inr other ↦ by_route (λ e. absurd (ground (arith, e, other, ==_refl idempotent)))
    ]

  module _ {T : Type 0} (adapter_for : AdapterFor T) (r f : EffectRecord) (w : World S T)
      (current : view.find r.effect_id w.store ≡ some f) (old : f.version ≢ r.version) where
    -- A write on an old version is fenced, in any world with this store.
    fenced :
        (target : EffectStatus) (metadata : JsonObject) (w1 : World S T)
        → w1.store ≡ w.store
        → transition_and_record store r target metadata w1 ≡ (
          err (version_conflict r.effect_id r.version f.version),
          record w1 { reads = w1.reads + 1; metrics = record_fenced_stale_write w1.metrics },
        )
    fenced target metadata w1 same =
        record_fenced store view laws r target metadata w1 f (rw same current) old

    -- The world after the refusal.
    abbrev counted : World S T → World S T
    counted w1 = record w1 { reads = w1.reads + 1; metrics = record_fenced_stale_write w1.metrics }

    -- Every route begins with such a write.
    stale_is_refused :
        (w' : World S T) × (reconcile_once store adapter_for r w
          ≡ (err (version_conflict r.effect_id r.version f.version), w'))
        × (w'.store ≡ w.store)
        × (w'.target ≡ w.target)
    unfolding reconcile_by_key reconcile_by_probe reconcile_by_operator redispatch_if redispatch
    stale_is_refused = elim (routes store view laws adapter_for r.contract.safety) [
      | inl key ↦
          let w1 : World S T = record w {
            metrics = record_retention_remaining r (w.clock w.reads) w.metrics;
            reads = w.reads + 1 + 1;
          } in
          let w2 : World S T = record w1 {
            metrics = record_reconciliation_outcome (text "retention_expired") w1.metrics;
          } in
          elim (Bool-cases (key_retention_valid r (w.clock (w.reads + 1)))) [
            | inl live ↦ (
              counted w1,
              takes_key store view laws adapter_for r w key
                  ∙ ground (
                    arith,
                    live,
                    fenced dispatching
                        (object ((text "reason", str (text "idempotent_redispatch")) ∷ [])) w1 refl,
                  ),
              refl,
              refl,
            )
            | inr expired ↦ (
              counted w2,
              takes_key store view laws adapter_for r w key
                  ∙ ground (
                    arith,
                    expired,
                    fenced manual_review
                        (object
                          ((text "reason", str (text "idempotency_key_retention_expired")) ∷ []))
                        w2 refl,
                  ),
              refl,
              refl,
            )
          ]
      | inr (inl asks) ↦ (
        counted w,
        takes_probe store view laws adapter_for r w asks
            ∙ ground (
              arith,
              fenced reconciling (object ((text "reason", str (text "authoritative_probe")) ∷ [])) w
                  refl,
            ),
        refl,
        refl,
      )
      | inr (inr review) ↦ (
        counted (record w {
          metrics = record_reconciliation_outcome (text "unsafe_unknown") w.metrics;
        }),
        takes_operator store view laws adapter_for r w review
            ∙ ground (
              arith,
              fenced manual_review (object ((text "reason", str (text "unsafe_unknown")) ∷ []))
                  (record w {
                    metrics = record_reconciliation_outcome (text "unsafe_unknown") w.metrics;
                  })
                  refl,
            ),
        refl,
        refl,
      )
    ]

  -- A reconciler that comes second fails and changes neither the store nor the target, whatever the
  -- class, the adapter and the clock: it holds another version of the effect than the store, or
  -- the effect that it read is one that a reconciler has taken up, or has brought to success or
  -- review.
  pub second_reconciler_fails :
      {T : Type 0} (adapter_for : AdapterFor T) (r f : EffectRecord) (w : World S T)
      → view.find r.effect_id w.store ≡ some f
      → (f.version ≢ r.version) ⊎ ((f ≡ r) × Taken r.contract.safety r.status)
      → (e : Error) × (w' : World S T) × (reconcile_once store adapter_for r w ≡ (err e, w'))
        × (w'.store ≡ w.store)
        × (w'.target ≡ w.target)
  second_reconciler_fails adapter_for r f w found (inl old) =
      let (w', refused, same_store, same_target) = stale_is_refused adapter_for r f w found old in
      (version_conflict r.effect_id r.version f.version, w', refused, same_store, same_target)
  second_reconciler_fails adapter_for r f w found (inr (same, taken)) =
      let (status, w', refused, same_store, same_target) =
        taken_is_refused adapter_for r w (found ∙ ap some same) taken in
      (invalid_transition r.status status, w', refused, same_store, same_target)
