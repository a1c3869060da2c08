-- ===== src/Reconcile/Failures.antt =====
-- What `reconcile_once` of src/effect_broker/reconcile.py leaves when the target's adapter raises
-- outside the calls that it guards.
use effect_broker.Prelude.{
  text, text_eq, ◌≡◌, refl, ◌∙◌, some, [], ◌∷◌, true, false, ==_refl, arith,
}
use effect_broker.Json.{str}
use effect_broker.Models.{EffectRecord, reconciling, SafetyClass, idempotent}
use effect_broker.Errors.{Error, ok, err, invalid_transition}
use effect_broker.StateMachine.{is_allowed, route_unknown}
use effect_broker.Adapters.{EffectAdapter, AdapterFor}
use effect_broker.Store.{EffectStore}
use effect_broker.Store.Laws.{StoreView, StoreLaws}
use effect_broker.Store.Rows.{object, updated_record}
use effect_broker.World.{World}
use effect_broker.Fenced.Laws.{record-Moves}
use effect_broker.Fenced.Attempt.{Settled}
use effect_broker.Reconcile.{reconcile_once, reconcile_by_probe}
use effect_broker.Reconcile.Routes.{takes_probe, wrong_status_is_refused}
use effect_broker.Reconcile.Answers.{at_rest, probing}

module _ {S T : Type 0} (store : EffectStore S) (view : StoreView S) (laws : StoreLaws store view)
    (adapter_for : AdapterFor T) where
  not_again : (r : EffectRecord) → r.status ≡ reconciling → is_allowed r.status reconciling ≡ false
  unfolding is_allowed
  not_again r h = rw h

  not_by_key : {c : SafetyClass} → route_unknown c ≡ reconciling → c ≡ idempotent → ⊥
  unfolding route_unknown
  not_by_key asks h = ground arith

  -- A probe that raises leaves its effect in `reconciling` with the exception passed on, and the
  -- next reconciliation of that effect is refused: it cannot be asked again.
  pub failed_probe_strands :
      (effect : EffectRecord) (a : EffectAdapter T) (e : Error) (t' : T) (w : World S T)
      → view.Valid w.store
      → view.find effect.effect_id w.store ≡ some effect
      → route_unknown effect.contract.safety ≡ reconciling
      → is_allowed effect.status reconciling ≡ true
      → adapter_for (probing store view laws adapter_for effect w) ≡ ok a
      → a.probe (probing store view laws adapter_for effect w) w.target ≡ (err e, t')
      → (w' : World S T) × (w'' : World S T) × (reconcile_once store adapter_for effect w
          ≡ (err e, w'))
        × Settled store view laws effect
            (probing store view laws adapter_for effect w)
            (view.attempts effect.effect_id w.store)
            t'
            w
            w'
        × (reconcile_once store adapter_for (probing store view laws adapter_for effect w) w'
            ≡ (err (invalid_transition reconciling reconciling), w''))
        × (w''.store ≡ w'.store)
        × (w''.target ≡ w'.target)
  unfolding reconcile_by_probe updated_record
  failed_probe_strands effect a e t' w valid current asks allowed adapter raises =
      let p = probing store view laws adapter_for effect w in
      let (w1, moved, m) =
        record-Moves store view laws effect reconciling
          (object ((text "reason", str (text "authoritative_probe")) ∷ [])) w valid current
          allowed in
      let w1' : World S T = record w1 { target = t' } in
      let found_p : view.find effect.effect_id w1.store ≡ some p =
        m.found effect.effect_id ∙ ground (arith, ==_refl effect.effect_id) in
      let rested = at_rest store view laws adapter_for m in
      let (w2, refused, same_store, same_target) =
        wrong_status_is_refused store view laws adapter_for p w1' found_p
          (rw asks (not_again p refl)) (λ h. absurd (not_by_key asks h)) in
      (
        w1',
        w2,
        takes_probe store view laws adapter_for effect w asks
            ∙ ground (arith, moved, m.same_target, adapter, raises),
        record {
          valid = rested.valid;
          found = rested.found;
          attempts = rested.attempts;
          target_after = refl;
          same_clock = rested.same_clock;
        },
        refused ∙ rw asks,
        same_store,
        same_target,
      )
