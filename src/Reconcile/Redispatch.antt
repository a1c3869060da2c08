-- ===== src/Reconcile/Redispatch.antt =====
-- What `reconcile_once` of src/effect_broker/reconcile.py persists for the answer to a redispatch,
-- over any store that keeps the laws.
use effect_broker.Prelude.{
  ◌+◌, Text, text, text_eq, ◌≡◌, refl, ◌∙◌, some, [], ◌∷◌, true, if◌then◌else◌, ==_refl, arith,
  Bool-cases, inl, inr,
}
use effect_broker.Json.{str, JsonObject}
use effect_broker.Models.{
  EffectRecord, EffectStatus, dispatching, succeeded, retryable, outcome_unknown, idempotent,
  DispatchResult,
}
use effect_broker.Errors.{Result, ok, err, adapter_error}
use effect_broker.Exec.{Exec, lift, ◌>>=◌}
use effect_broker.Observability.{Metrics, record_reconciliation_outcome, record_retention_remaining}
use effect_broker.StateMachine.{is_allowed}
use effect_broker.Adapters.{EffectAdapter, AdapterFor}
use effect_broker.Store.{EffectStore}
use effect_broker.Store.Laws.{StoreView, StoreLaws}
use effect_broker.Store.Rows.{object, updated_record, attempt_id_of}
use effect_broker.World.{World}
use effect_broker.Fenced.{committed_data, transition_and_record, transition_committed}
use effect_broker.Fenced.Laws.{record-Moves}
use effect_broker.Fenced.Attempt.{in_flight, Settled, begins, settles, rebase}
use effect_broker.Reconcile.{
  key_retention_valid, after_redispatch, redispatch_answered, redispatch_failed, call_target,
  redispatch, redispatch_if, reconcile_once, reconcile_by_key,
}
use effect_broker.Reconcile.Routes.{takes_key}

-- The status that the answer to a redispatch stands for.
abbrev pub redispatch_verdict : Result DispatchResult → EffectStatus
redispatch_verdict (ok result) = if result.committed then succeeded else outcome_unknown
redispatch_verdict (err (adapter_error _)) = retryable
redispatch_verdict (err _) = outcome_unknown

module _ {S T : Type 0} (store : EffectStore S) (view : StoreView S) (laws : StoreLaws store view)
    (adapter_for : AdapterFor T) where
  redispatch_allowed :
      (answer : Result DispatchResult) → is_allowed dispatching (redispatch_verdict answer) ≡ true
  unfolding is_allowed
  redispatch_allowed answer = ground arith

  answered :
      (d : EffectRecord) (attempt_id : Text) (answer : Result DispatchResult) (w : World S T)
      → (metadata : JsonObject) × (m : Metrics) × (after_redispatch store d attempt_id answer w
          ≡ transition_and_record store d
              (redispatch_verdict answer)
              metadata
              (record w { metrics = m }))
  unfolding after_redispatch redispatch_answered redispatch_failed transition_committed
  answered d attempt_id (ok result) w = elim (Bool-cases result.committed) [
    | inl yes_it_is ↦ (
      committed_data attempt_id result,
      record_reconciliation_outcome (text "redispatch_committed") w.metrics,
      rw yes_it_is,
    )
    | inr not_it ↦ (
      object
          ((text "attempt_id", str attempt_id) ∷ (text "reason", str (text "not_confirmed")) ∷ []),
      record_reconciliation_outcome (text "redispatch_unknown") w.metrics,
      rw not_it,
    )
  ]
  answered d attempt_id (err (adapter_error m)) w = (_, _, refl)
  answered d attempt_id (err e) w = (_, _, refl)

  -- The rest of a redispatch, from the lookup of the adapter on.
  abbrev calls : EffectRecord → Text → Exec (World S T) EffectRecord
  calls d attempt_id = lift (adapter_for d) >>= λ adapter.
      call_target store adapter_for adapter d attempt_id >>= λ answer.
      after_redispatch store d attempt_id answer

  calls_once :
      (d : EffectRecord) (attempt_id : Text) (a : EffectAdapter T) (answer : Result DispatchResult)
      (t t' : T) (w : World S T)
      → adapter_for d ≡ ok a
      → a.dispatch d attempt_id t ≡ (answer, t')
      → w.target ≡ t
      → calls d attempt_id w ≡ after_redispatch store d attempt_id answer (record w { target = t' })
  unfolding call_target
  calls_once d attempt_id a answer t t' w adapter answers same = rw (adapter, same, answers)

  live_key :
      (effect : EffectRecord) (w : World S T)
      → key_retention_valid effect (w.clock (w.reads + 1)) ≡ true
      → reconcile_by_key store adapter_for effect w
        ≡ redispatch store adapter_for effect (record w {
          metrics = record_retention_remaining effect (w.clock w.reads) w.metrics;
          reads = w.reads + 2;
        })
  unfolding reconcile_by_key redispatch_if
  live_key effect w live = ground (arith, live)

  -- The record of a redispatched effect once its answer is persisted.
  abbrev pub redispatched : EffectRecord → Result DispatchResult → World S T → EffectRecord
  redispatched effect answer w =
      updated_record (updated_record effect dispatching (w.clock (w.reads + 2)))
        (redispatch_verdict answer) (w.clock (w.reads + 5))

  -- An idempotent effect whose key is live is dispatched again, once, and whatever the target
  -- answers is persisted: a proven commit is a success, a proven non-commit may be retried, and
  -- anything else is unknown again.
  pub redispatch_decides :
      (effect : EffectRecord) (a : EffectAdapter T) (answer : Result DispatchResult) (t' : T)
      (w : World S T)
      → view.Valid w.store
      → view.find effect.effect_id w.store ≡ some effect
      → effect.contract.safety ≡ idempotent
      → key_retention_valid effect (w.clock (w.reads + 1)) ≡ true
      → is_allowed effect.status dispatching ≡ true
      → adapter_for (updated_record effect dispatching (w.clock (w.reads + 2))) ≡ ok a
      → a.dispatch
          (updated_record effect dispatching (w.clock (w.reads + 2)))
          (attempt_id_of effect.effect_id (view.attempts effect.effect_id w.store + 1))
          w.target
        ≡ (answer, t')
      → (w' : World S T) × (reconcile_once store adapter_for effect w
          ≡ (ok (redispatched effect answer w), w'))
        × Settled store view laws effect
            (redispatched effect answer w)
            (view.attempts effect.effect_id w.store + 1)
            t'
            w
            w'
  unfolding redispatch updated_record
  redispatch_decides effect a answer t' w valid current is_idempotent live allowed adapter answers =
      let w0 : World S T = record w {
        metrics = record_retention_remaining effect (w.clock w.reads) w.metrics;
        reads = w.reads + 2;
      } in
      let d = in_flight store view laws effect w0 in
      let attempt_id =
        attempt_id_of effect.effect_id (view.attempts effect.effect_id w.store + 1) in
      let (w1, b) =
        begins store view laws (text "reconciler")
          (object ((text "reason", str (text "idempotent_redispatch")) ∷ [])) effect w0 valid
          current allowed in
      let w1' : World S T = record w1 { target = t' } in
      let found_d : view.find effect.effect_id w1.store ≡ some d =
        b.settled.found effect.effect_id ∙ ground (arith, ==_refl effect.effect_id) in
      let (metadata, metrics, persists) = answered d attempt_id answer w1' in
      let (w2, moved, m) =
        record-Moves store view laws d (redispatch_verdict answer) metadata
          (record w1' { metrics = metrics }) b.settled.valid found_d (redispatch_allowed answer) in
      let seen : w1.clock w1.reads ≡ w.clock (w.reads + 5) =
        ground (arith, b.settled.same_clock, b.three_reads) in
      (
        w2,
        takes_key store view laws adapter_for effect w is_idempotent
            ∙ live_key effect w live
            ∙ b.goes_on calls
            ∙ calls_once d attempt_id a answer w.target t' w1 adapter answers b.settled.target_after
            ∙ persists
            ∙ moved
            ∙ rw seen,
        rw (← seen) (
            rebase store view laws w0 w refl refl
              (settles store view laws refl b.settled refl refl m)),
      )
