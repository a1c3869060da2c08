-- ===== src/Reconcile/Answers.antt =====
-- What `reconcile_once` of src/effect_broker/reconcile.py persists for the answer to a probe, over
-- any store that keeps the laws.
use effect_broker.Prelude.{
  ℕ, ◌+◌, Text, text, text_eq, ◌≡◌, refl, ap, sym, ◌∙◌, some, [], ◌∷◌, true, if◌then◌else◌, ◌==◌,
  ==_refl, ==_eq, arith, Bool-cases, inl, inr,
}
use effect_broker.Json.{str, JsonObject}
use effect_broker.Models.{
  EffectRecord, EffectStatus, prepared, succeeded, reconciling, manual_review, ProbeResult,
  ProbeStatus, committed, not_committed, unknown,
}
use effect_broker.Errors.{ok}
use effect_broker.Observability.{record_reconciliation_outcome}
use effect_broker.StateMachine.{is_allowed, route_unknown}
use effect_broker.Adapters.{EffectAdapter, AdapterFor}
use effect_broker.Store.{EffectStore}
use effect_broker.Store.Laws.{StoreView, StoreLaws}
use effect_broker.Store.Rows.{object, updated_record}
use effect_broker.World.{World}
use effect_broker.Fenced.{transition_and_record}
use effect_broker.Fenced.Laws.{Moves, record-Moves}
use effect_broker.Fenced.Attempt.{Settled, settles}
use effect_broker.Reconcile.{persist_probe, reconcile_once, reconcile_by_probe, probe_value}
use effect_broker.Reconcile.Routes.{takes_probe}

-- The status that a probe's answer stands for.
abbrev pub probe_verdict : ProbeStatus → EffectStatus
probe_verdict committed = succeeded
probe_verdict not_committed = prepared
probe_verdict unknown = manual_review

module _ {S T : Type 0} (store : EffectStore S) (view : StoreView S) (laws : StoreLaws store view)
    (adapter_for : AdapterFor T) where
  persisted_probe :
      (d : EffectRecord) (probe : ProbeResult) (status : ProbeStatus) (w : World S T)
      → (metadata : JsonObject) × (persist_probe store d probe status w
          ≡ transition_and_record store d (probe_verdict status) metadata w)
  unfolding persist_probe
  persisted_probe d probe committed w = (_, refl)
  persisted_probe d probe not_committed w = (_, refl)
  persisted_probe d probe unknown w = (_, refl)

  probe_allowed : (status : ProbeStatus) → is_allowed reconciling (probe_verdict status) ≡ true
  unfolding is_allowed
  probe_allowed committed = refl
  probe_allowed not_committed = refl
  probe_allowed unknown = refl

  own : (f : Text → ℕ) (i j : Text) → f j ≡ (if i == j then f i else f j)
  own f i j = elim (Bool-cases (i == j)) [
    | inl same ↦ rw same (ap f (sym (==_eq i j same)))
    | inr other ↦ rw other
  ]

  -- One transition, as a settled effect.
  pub at_rest :
      {effect after : EffectRecord} {w w' : World S T}
      → Moves store view laws effect after w w'
      → Settled store view laws effect after (view.attempts effect.effect_id w.store) w.target w w'
  at_rest {effect = effect} {w = w} m = record {
    valid = m.valid;
    found = m.found;
    attempts = λ j. m.same_attempts j ∙ own (λ i. view.attempts i w.store) effect.effect_id j;
    target_after = m.same_target;
    same_clock = m.same_clock;
  }

  -- The record of an effect while its probe runs.
  abbrev pub probing : EffectRecord → World S T → EffectRecord
  probing effect w = updated_record effect reconciling (w.clock w.reads)

  -- Where a class has an authority to ask, its answer decides: a commit it shows is a success, a
  -- commit it rules out is prepared again, and anything else goes to manual review. The broker
  -- makes no dispatch.
  pub probe_decides :
      (effect : EffectRecord) (a : EffectAdapter T) (result : ProbeResult) (t' : T) (w : World S T)
      → view.Valid w.store
      → view.find effect.effect_id w.store ≡ some effect
      → route_unknown effect.contract.safety ≡ reconciling
      → is_allowed effect.status reconciling ≡ true
      → adapter_for (probing effect w) ≡ ok a
      → a.probe (probing effect w) w.target ≡ (ok result, t')
      → (w' : World S T) × (reconcile_once store adapter_for effect w ≡ (
        ok (
            updated_record
              (probing effect w)
              (probe_verdict result.status)
              (w.clock (w.reads + 2))),
        w',
      ))
        × Settled store view laws effect
            (updated_record
              (probing effect w)
              (probe_verdict result.status)
              (w.clock (w.reads + 2)))
            (view.attempts effect.effect_id w.store)
            t'
            w
            w'
  unfolding reconcile_by_probe updated_record
  probe_decides effect a result t' w valid current asks allowed adapter answers =
      let (w1, moved, m) =
        record-Moves store view laws effect reconciling
          (object ((text "reason", str (text "authoritative_probe")) ∷ [])) w valid current
          allowed in
      let w1' : World S T = record w1 {
        target = t';
        metrics = record_reconciliation_outcome (probe_value result.status) w1.metrics;
      } in
      let found_p : view.find effect.effect_id w1.store ≡ some (probing effect w) =
        m.found effect.effect_id ∙ ground (arith, ==_refl effect.effect_id) in
      let (metadata, persists) = persisted_probe (probing effect w) result result.status w1' in
      let (w2, moved2, m2) =
        record-Moves store view laws (probing effect w) (probe_verdict result.status) metadata w1'
          m.valid found_p (probe_allowed result.status) in
      let seen : w1.clock w1.reads ≡ w.clock (w.reads + 2) =
        ground (arith, m.same_clock, m.two_reads) in
      (
        w2,
        takes_probe store view laws adapter_for effect w asks
            ∙ ground (arith, moved, m.same_target, adapter, answers, persists, moved2, seen),
        rw (← seen) (settles store view laws refl (at_rest m) refl refl m2),
      )
