-- ===== src/Fenced/Attempt.antt =====
-- The steps that src/effect_broker/worker.py and src/effect_broker/reconcile.py both take before
-- a target call: the transition to `dispatching`, and the attempt that is put on record.
use effect_broker.Prelude.{
  ℕ, ◌+◌, Text, text_eq, ◌≡◌, some, true, if◌then◌else◌, ◌==◌, ==_refl, arith, refl, ◌∙◌,
}
use effect_broker.Json.{JsonObject}
use effect_broker.Models.{EffectRecord, dispatching}
use effect_broker.Exec.{Exec, ◌>>=◌, ◌>>◌}
use effect_broker.Observability.{record_dispatch_attempt}
use effect_broker.StateMachine.{is_allowed}
use effect_broker.Store.{EffectStore}
use effect_broker.Store.Laws.{StoreView, StoreLaws}
use effect_broker.Store.Rows.{updated_record, attempt_id_of}
use effect_broker.World.{World, read_clock, on_store, update_metrics}
use effect_broker.Fenced.{transition_and_record}
use effect_broker.Fenced.Laws.{Moves, record-Moves}

module _ {S T : Type 0} (store : EffectStore S) (view : StoreView S)
    (laws : StoreLaws store view) where
  -- The record of an effect while its target call runs.
  abbrev pub in_flight : EffectRecord → World S T → EffectRecord
  in_flight effect w = updated_record effect dispatching (w.clock w.reads)

  -- The world `w'` is `w` with the effect now `after`, with `tries` attempts on record, and with
  -- the target `t'`; every other effect is as it was.
  pub record Settled (effect after : EffectRecord) (tries : ℕ) (t' : T) (w w' : World S T)
      : Type 0 where
    pub valid : view.Valid w'.store
    pub found :
        (j : Text)
        → view.find j w'.store ≡ (if effect.effect_id == j then some after else view.find j w.store)
    pub attempts :
        (j : Text)
        → view.attempts j w'.store
          ≡ (if effect.effect_id == j then tries else view.attempts j w.store)
    pub target_after : w'.target ≡ t'
    pub same_clock : w'.clock ≡ w.clock

  module _ (worker : Text) (metadata : JsonObject) (effect : EffectRecord) (w : World S T) where
    -- Whatever follows runs on the effect in flight, under the id of the next attempt.
    pub record Begun (w2 : World S T) : Type 0 where
      pub goes_on :
          (k : EffectRecord → Text → Exec (World S T) EffectRecord)
          → (transition_and_record store effect dispatching metadata >>= λ dispatched.
                read_clock >>= λ now.
                on_store (store.start_attempt dispatched.effect_id dispatched.version worker now)
                >>= λ attempt_id.
                    update_metrics (record_dispatch_attempt dispatched) >> k dispatched attempt_id)
              w
            ≡ k
                (in_flight effect w)
                (attempt_id_of effect.effect_id (view.attempts effect.effect_id w.store + 1))
                w2
      pub settled :
          Settled effect
            (in_flight effect w)
            (view.attempts effect.effect_id w.store + 1)
            w.target
            w
            w2
      pub three_reads : w2.reads ≡ w.reads + 3

    pub begins :
        view.Valid w.store
        → view.find effect.effect_id w.store ≡ some effect
        → is_allowed effect.status dispatching ≡ true
        → (w2 : World S T) × Begun w2
    unfolding updated_record
    begins valid current allowed =
        let d = in_flight effect w in
        let (w1, moved, m) =
          record-Moves store view laws effect dispatching metadata w valid current allowed in
        let found1 : view.find effect.effect_id w1.store ≡ some d =
          m.found effect.effect_id ∙ ground (arith, ==_refl effect.effect_id) in
        let (s2, started, valid2, found2, attempts2) =
          laws.start_allowed effect.effect_id d.version worker (w1.clock w1.reads) w1.store d
            m.valid found1 refl in
        let w2 : World S T = record w1 {
          store = s2;
          reads = w1.reads + 1;
          metrics = record_dispatch_attempt d w1.metrics;
        } in
        (
          w2,
          record {
            goes_on = λ k. ground (arith, moved, started, m.same_attempts effect.effect_id);
            settled = record {
              valid = valid2;
              found = λ j. found2 j ∙ m.found j;
              attempts = λ j.
                  ground (arith, attempts2 j, m.same_attempts effect.effect_id, m.same_attempts j);
              target_after = m.same_target;
              same_clock = m.same_clock;
            };
            three_reads = ground (arith, m.two_reads);
          },
        )

  -- A further transition of an effect that has settled.
  pub settles :
      {effect before after : EffectRecord} {tries : ℕ} {t' : T} {w w1 w1' w2 : World S T}
      → before.effect_id ≡ effect.effect_id
      → Settled effect before tries t' w w1
      → w1'.store ≡ w1.store
      → w1'.clock ≡ w1.clock
      → Moves store view laws before after w1' w2
      → Settled effect after tries w1'.target w w2
  settles id st same_store clock m = record {
    valid = m.valid;
    found = λ j. m.found j ∙ ground (arith, st.found j, id, same_store);
    attempts = λ j. m.same_attempts j ∙ ground (arith, st.attempts j, same_store);
    target_after = m.same_target;
    same_clock = m.same_clock ∙ clock ∙ st.same_clock;
  }

  -- What a world is compared with may differ in its target, its metrics and its reads.
  pub rebase :
      {effect after : EffectRecord} {tries : ℕ} {t' : T} (w0 w : World S T) {w' : World S T}
      → w0.store ≡ w.store
      → w0.clock ≡ w.clock
      → Settled effect after tries t' w0 w'
      → Settled effect after tries t' w w'
  rebase w0 w same_store clock st = record {
    valid = st.valid;
    found = λ j. rw (← same_store) (st.found j);
    attempts = λ j. rw (← same_store) (st.attempts j);
    target_after = st.target_after;
    same_clock = st.same_clock ∙ clock;
  }
