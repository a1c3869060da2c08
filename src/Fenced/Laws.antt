-- ===== src/Fenced/Laws.antt =====
-- `_transition_and_record` (src/effect_broker/worker.py, reconcile.py) over any lawful store.
use effect_broker.Prelude.{
  ◌+◌, Text, text_eq, ◌≡◌, ◌≢◌, refl, some, true, false, if◌then◌else◌, ◌==◌, arith,
}
use effect_broker.Json.{JsonObject}
use effect_broker.Models.{EffectRecord, EffectStatus}
use effect_broker.Errors.{ok, err, version_conflict, invalid_transition}
use effect_broker.Observability.{record_transition, record_fenced_stale_write}
use effect_broker.StateMachine.{is_allowed}
use effect_broker.Store.{EffectStore}
use effect_broker.Store.Laws.{StoreView, StoreLaws}
use effect_broker.Store.Rows.{updated_record}
use effect_broker.World.{World}
use effect_broker.Fenced.{transition_and_record}

module _ {S T : Type 0} (store : EffectStore S) (view : StoreView S)
    (laws : StoreLaws store view) where
  -- The world `w'` is `w` with the effect `before` moved on to `after`; no target was called.
  pub record Moves (before after : EffectRecord) (w w' : World S T) : Type 0 where
    pub valid : view.Valid w'.store
    pub found :
        (j : Text)
        → view.find j w'.store ≡ (if before.effect_id == j then some after else view.find j w.store)
    pub same_attempts : (j : Text) → view.attempts j w'.store ≡ view.attempts j w.store
    pub same_target : w'.target ≡ w.target
    pub same_clock : w'.clock ≡ w.clock
    pub two_reads : w'.reads ≡ w.reads + 1 + 1

  module _ (before : EffectRecord) (target : EffectStatus) (metadata : JsonObject)
      (w : World S T) where
    -- The record that the transition writes: it carries the first time that the clock gives.
    abbrev pub after_of : EffectRecord
    after_of = updated_record before target (w.clock w.reads)

    -- A transition of the current record along an allowed edge goes through.
    pub record-Moves :
        view.Valid w.store
        → view.find before.effect_id w.store ≡ some before
        → is_allowed before.status target ≡ true
        → (w' : World S T) × (transition_and_record store before target metadata w
            ≡ (ok after_of, w'))
          × Moves before after_of w w'
    unfolding transition_and_record
    record-Moves valid current edge =
        let (s', e, valid', found, attempts) =
          laws.transition_allowed before.effect_id before.version target metadata (w.clock w.reads)
            w.store before valid current refl edge in
        (
          record w {
            store = s';
            reads = w.reads + 1 + 1;
            metrics = record_transition before after_of (w.clock (w.reads + 1)) w.metrics;
          },
          ground (arith, e),
          record {
            valid = valid';
            found = found;
            same_attempts = attempts;
            same_target = refl;
            same_clock = refl;
            two_reads = refl;
          },
        )

    -- A transition that expects an old version is refused and counted; it changes neither the
    -- store nor the target.
    pub record_fenced :
        (r : EffectRecord)
        → view.find before.effect_id w.store ≡ some r
        → r.version ≢ before.version
        → transition_and_record store before target metadata w ≡ (
          err (version_conflict before.effect_id before.version r.version),
          record w { reads = w.reads + 1; metrics = record_fenced_stale_write w.metrics },
        )
    unfolding transition_and_record
    record_fenced r found stale = ground (
      arith,
      laws.transition_stale before.effect_id before.version target metadata (w.clock w.reads)
          w.store r found stale,
    )

    -- A transition along no edge raises; it changes neither the store nor the target.
    pub record_forbidden :
        view.find before.effect_id w.store ≡ some before
        → is_allowed before.status target ≡ false
        → transition_and_record store before target metadata w
          ≡ (err (invalid_transition before.status target), record w { reads = w.reads + 1 })
    unfolding transition_and_record
    record_forbidden found no_edge = ground (
      arith,
      laws.transition_forbidden before.effect_id before.version target metadata (w.clock w.reads)
          w.store before found refl no_edge,
    )
