-- ===== src/Observability.antt =====
-- The metrics (src/effect_broker/observability.py). Spans and latency samples change nothing that
-- the broker reads and are not modelled; gauges of time are in microseconds.
use effect_broker.Prelude.{
  ℕ, ◌+◌, Text, text, text_eq, pair_eq, ◌&&◌, not, Option, none, some, List, [], ◌∷◌, map, length,
  if◌then◌else◌, ◌==◌,
}
use effect_broker.Prelude.Int.{pos, ◌+ℤ◌, ◌-ℤ◌, ltb_ℤ}
use effect_broker.Prelude.Dict.{Dict, lookup, insert, erase, values}
use effect_broker.Models.{
  EffectRecord, EffectStatus, status_eq, succeeded, failed_final, outcome_unknown, safety_value,
  Reservation, Time, Duration,
}

-- A counter or gauge by its labels.
abbrev pub UnknownKey : Type 0
UnknownKey = (Text × Text) × Time

pub record Metrics : Type 0 where
  pub effects_total : Dict Text ℕ
  pub outcome_unknown_effects : Dict (Text × Text) ℕ
  pub outcome_unknown_oldest_age : Dict (Text × Text) Duration
  pub dispatch_attempts_total : Dict Text ℕ
  pub reconciliation_outcomes_total : Dict Text ℕ
  pub lease_expirations_total : ℕ
  pub fenced_stale_writes_total : ℕ
  pub payload_conflicts_total : ℕ
  pub retention_remaining : Duration
  pub unknown_by_effect_id : Dict Text UnknownKey

unfoldable pub no_metrics : Metrics
no_metrics = record {
  effects_total = [];
  outcome_unknown_effects = [];
  outcome_unknown_oldest_age = [];
  dispatch_attempts_total = [];
  reconciliation_outcomes_total = [];
  lease_expirations_total = 0;
  fenced_stale_writes_total = 0;
  payload_conflicts_total = 0;
  retention_remaining = pos 0;
  unknown_by_effect_id = [];
}

-- The value of a counter that may not have been touched yet.
unfoldable pub count_of : Option ℕ → ℕ
count_of none = 0
count_of (some n) = n

-- `counter.labels(label).inc()`
unfoldable pub inc : Text → Dict Text ℕ → Dict Text ℕ
unfolding count_of
inc label counter = insert label (count_of (lookup label counter) + 1) counter

unfoldable pub record_submit : Reservation → Metrics → Metrics
record_submit reservation m = record m {
  effects_total =
      inc (if reservation.created then text "submitted" else text "deduplicated") m.effects_total;
}

unfoldable pub record_conflict : Metrics → Metrics
record_conflict m = record m {
  effects_total = inc (text "conflicted") m.effects_total;
  payload_conflicts_total = m.payload_conflicts_total + 1;
}

unfoldable pub unknown_key : EffectRecord → UnknownKey
unknown_key effect =
    ((effect.contract.name, safety_value effect.contract.safety), effect.created_at)

-- The creation times of the tracked effects with this label.
unfoldable pub created_times : Text × Text → List UnknownKey → List Time
created_times label [] = []
created_times label ((key, created_at) ∷ keys) =
    let rest = created_times label keys in if key == label then created_at ∷ rest else rest

-- `min(created_times)`, from a first candidate
unfoldable pub oldest : Time → List Time → Time
oldest t [] = t
oldest t (u ∷ us) = oldest (if ltb_ℤ u t then u else t) us

-- The age of the oldest of these, or zero.
unfoldable pub oldest_age : Time → List Time → Duration
unfolding oldest
oldest_age now [] = pos 0
oldest_age now (t ∷ ts) = let age = now -ℤ oldest t ts in if ltb_ℤ age (pos 0) then pos 0 else age

-- The round of the loop of `_track_unknown` for one label.
unfoldable pub set_gauges : Time → Text × Text → Metrics → Metrics
set_gauges now label m =
    let times = created_times label (values m.unknown_by_effect_id) in
    record m {
      outcome_unknown_effects = insert label (length times) m.outcome_unknown_effects;
      outcome_unknown_oldest_age = insert label (oldest_age now times) m.outcome_unknown_oldest_age;
    }

unfoldable pub set_all_gauges : Time → List (Text × Text) → Metrics → Metrics
set_all_gauges now [] m = m
set_all_gauges now (label ∷ labels) m = set_all_gauges now labels (set_gauges now label m)

-- The first part of `_track_unknown`: which effects are unknown.
unfoldable pub track_effect :
    EffectRecord → EffectRecord → Dict Text UnknownKey → Dict Text UnknownKey
track_effect before after tracked =
    if after.status == outcome_unknown
    then insert after.effect_id (unknown_key after) tracked
    else if before.status == outcome_unknown
    then erase before.effect_id tracked
    else tracked

-- `_track_unknown`. The labels form a set there; setting a gauge twice to one value is as once.
unfoldable pub track_unknown : EffectRecord → EffectRecord → Time → Metrics → Metrics
track_unknown before after now m =
    let tracked = track_effect before after m.unknown_by_effect_id in
    let labels = (unknown_key before).0 ∷ (unknown_key after).0 ∷ map (λ k. k.0) (values tracked) in
    set_all_gauges now labels (record m { unknown_by_effect_id = tracked })

-- The label under which a transition is counted.
unfoldable pub result_label : EffectStatus → EffectStatus → Option Text
result_label before after =
    if after == succeeded && not (before == after)
    then some (text "succeeded")
    else if after == failed_final && not (before == after)
    then some (text "failed")
    else if after == outcome_unknown && not (before == after)
    then some (text "unknown")
    else none

unfoldable pub count_result : Option Text → Metrics → Metrics
count_result none m = m
count_result (some label) m = record m { effects_total = inc label m.effects_total }

unfoldable pub record_transition : EffectRecord → EffectRecord → Time → Metrics → Metrics
record_transition before after now m =
    let counted = count_result (result_label before.status after.status) m in
    if before.status == after.status then counted else track_unknown before after now counted

unfoldable pub record_dispatch_attempt : EffectRecord → Metrics → Metrics
record_dispatch_attempt effect m = record m {
  dispatch_attempts_total = inc effect.request.tool m.dispatch_attempts_total;
}

unfoldable pub record_reconciliation_outcome : Text → Metrics → Metrics
record_reconciliation_outcome outcome m = record m {
  reconciliation_outcomes_total = inc outcome m.reconciliation_outcomes_total;
}

unfoldable pub record_lease_expiration : Metrics → Metrics
record_lease_expiration m = record m { lease_expirations_total = m.lease_expirations_total + 1 }

unfoldable pub record_fenced_stale_write : Metrics → Metrics
record_fenced_stale_write m = record m {
  fenced_stale_writes_total = m.fenced_stale_writes_total + 1;
}

unfoldable pub retention_left : EffectRecord → Time → Option Duration → Duration
retention_left effect now none = pos 0
retention_left effect now (some retention) = effect.created_at +ℤ retention -ℤ now

unfoldable pub record_retention_remaining : EffectRecord → Time → Metrics → Metrics
unfolding retention_left
record_retention_remaining effect now m = record m {
  retention_remaining = retention_left effect now effect.contract.key_retention;
}
