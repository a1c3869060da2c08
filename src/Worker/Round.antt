-- ===== src/Worker/Round.antt =====
-- One round of the worker on a claimed effect (`dispatch_once` of src/effect_broker/worker.py),
-- over any store that keeps the laws.
use effect_broker.Prelude.{
  ℕ, ◌+◌, Text, text, text_eq, ◌≡◌, ◌≢◌, some, [], ◌∷◌, true, ==_refl, arith, refl, ◌∙◌,
}
use effect_broker.Json.{str}
use effect_broker.Models.{EffectRecord, dispatching, DispatchResult}
use effect_broker.Errors.{Result, ok, err, version_conflict}
use effect_broker.Observability.{record_fenced_stale_write}
use effect_broker.Adapters.{AdapterFor}
use effect_broker.StateMachine.{is_allowed}
use effect_broker.Store.{EffectStore}
use effect_broker.Store.Laws.{StoreView, StoreLaws}
use effect_broker.Store.Rows.{object, updated_record, attempt_id_of}
use effect_broker.World.{World, recover}
use effect_broker.Fenced.Laws.{record_fenced}
use effect_broker.Fenced.Attempt.{in_flight, Settled, begins, settles}
use effect_broker.Worker.{attempt_dispatch, handle_dispatch_error, dispatch_effect}
use effect_broker.Worker.Outcome.{Answered, verdict, finishes}

module _ {S T : Type 0} (store : EffectStore S) (view : StoreView S) (laws : StoreLaws store view)
    (adapter_for : AdapterFor T) (worker_id : Text) where
  abbrev pub persisted : EffectRecord → World S T → Result DispatchResult → ℕ → EffectRecord
  persisted effect w answer n =
      updated_record (in_flight store view laws effect w)
        (verdict answer n effect.contract.retry_limit) (w.clock (w.reads + 3))

  -- A round on a current effect that may be dispatched always returns: for whatever the target
  -- answers to the one call, the effect is stored with the verdict of that answer and the second
  -- version after the claim, and one attempt more is on record.
  pub dispatch_effect_finishes :
      (effect : EffectRecord) (answer : Result DispatchResult) (t' : T) (w : World S T)
      → view.Valid w.store
      → view.find effect.effect_id w.store ≡ some effect
      → is_allowed effect.status dispatching ≡ true
      → Answered adapter_for
          (in_flight store view laws effect w)
          (attempt_id_of effect.effect_id (view.attempts effect.effect_id w.store + 1))
          w.target
          answer
          t'
      → (w' : World S T) × (dispatch_effect store adapter_for worker_id effect w
          ≡ (ok (persisted effect w answer (view.attempts effect.effect_id w.store + 1)), w'))
        × Settled store view laws effect
            (persisted effect w answer (view.attempts effect.effect_id w.store + 1))
            (view.attempts effect.effect_id w.store + 1)
            t'
            w
            w'
  unfolding dispatch_effect updated_record
  dispatch_effect_finishes effect answer t' w valid current allowed a =
      let n = view.attempts effect.effect_id w.store + 1 in
      let (w2, b) =
        begins store view laws worker_id (object ((text "worker_id", str worker_id) ∷ [])) effect w
          valid current allowed in
      let found_d : view.find effect.effect_id w2.store
          ≡ some (in_flight store view laws effect w) =
        b.settled.found effect.effect_id ∙ ground (arith, ==_refl effect.effect_id) in
      let (w', returns, m) =
        finishes store view laws adapter_for (in_flight store view laws effect w) n answer t' w2
          b.settled.valid found_d refl (rw b.settled.target_after a) in
      let seen : w2.clock w2.reads ≡ w.clock (w.reads + 3) =
        rw (b.settled.same_clock, b.three_reads) in
      (
        w',
        b.goes_on (λ d id.
              recover (attempt_dispatch store adapter_for d id) (handle_dispatch_error store d id))
            ∙ returns
            ∙ rw seen,
        rw (← seen) (settles store view laws refl b.settled refl refl m),
      )

  -- A worker whose claim is stale is refused before it calls the target: the store and the target
  -- stay as they were, and the refusal is counted.
  pub stale_worker_never_dispatches :
      (effect r : EffectRecord) (w : World S T)
      → view.find effect.effect_id w.store ≡ some r
      → r.version ≢ effect.version
      → dispatch_effect store adapter_for worker_id effect w ≡ (
        err (version_conflict effect.effect_id effect.version r.version),
        record w { reads = w.reads + 1; metrics = record_fenced_stale_write w.metrics },
      )
  unfolding dispatch_effect updated_record
  stale_worker_never_dispatches effect r w found stale = ground (
    arith,
    record_fenced store view laws effect dispatching
        (object ((text "worker_id", str worker_id) ∷ [])) w r found stale,
  )
