-- ===== src/Store/Postgres/Durations.antt =====
-- Durations in src/effect_broker/store/postgres.py are kept as whole seconds.
use effect_broker.Prelude.{
  ◌+◌, ◌*◌, ◌/◌, ◌≤◌, ◌<◌, ◌≡◌, refl, zero, suc, Option, none, some, arith, inl, inr,
}
use effect_broker.Prelude.Int.{ℤ, pos, negsuc, pos_part, neg_part}
use effect_broker.Models.{EffectRecord, EffectContract, Duration}
use effect_broker.Errors.{ok, Result-cases}
use effect_broker.Store.Values.{effect_status-status_value, safety_class-safety_value}
use effect_broker.Store.Sqlite.RoundTrip.{IsExact, IsExactOption}
use effect_broker.Store.Postgres.Tables.{Driver, IntentRow}
use effect_broker.Store.Postgres.Records.{
  negated, of_seconds, duration_seconds, seconds_to_duration, json_value, record_values,
  row_to_record,
}

negated_parts : (a : ℤ) → (pos_part (negated a) ≡ neg_part a) × (neg_part (negated a) ≡ pos_part a)
unfolding negated
negated_parts (pos zero) = (refl, refl)
negated_parts (pos (suc n)) = (refl, refl)
negated_parts (negsuc n) = (omega arith, refl)

-- What is kept of a duration is the same or closer to 0, by less than a second.
abbrev pub Nearly : Duration → Duration → Type 0
Nearly kept duration =
    (pos_part kept ≤ pos_part duration)
    × (pos_part duration < pos_part kept + 1000000)
    × (neg_part kept ≤ neg_part duration)
    × (neg_part duration < neg_part kept + 1000000)

of_seconds_parts :
    (a : ℤ)
    → (pos_part (of_seconds a) ≡ pos_part a * 1000000)
      × (neg_part (of_seconds a) ≡ neg_part a * 1000000)
unfolding of_seconds
of_seconds_parts (pos n) = (refl, omega arith)
of_seconds_parts (negsuc n) = ground (arith, negated_parts (pos ((n + 1) * 1000000)))

-- What Python promises of `int(duration.total_seconds())`: below 270 years the float keeps the
-- microseconds, and `int` drops them.
pub record Truncates (d : Driver) : Type 0 where
  pub truncated :
      (duration : Duration)
      → IsExact duration
      → (pos_part (d.int_seconds duration) ≡ pos_part duration / 1000000)
        × (neg_part (d.int_seconds duration) ≡ neg_part duration / 1000000)

abbrev pub NearlyOption : Option Duration → Option Duration → Type 0
NearlyOption none none = Unit
NearlyOption (some kept) (some duration) = Nearly kept duration
NearlyOption _ _ = ⊥

module _ (d : Driver) where
  -- The contract as it is read back.
  abbrev pub kept_contract : EffectContract → EffectContract
  kept_contract c = record c {
    key_retention = seconds_to_duration (duration_seconds d c.key_retention);
    settlement_bound = seconds_to_duration (duration_seconds d c.settlement_bound);
  }

  module _ (truncates : Truncates d) where
    kept_Nearly :
        (duration : Duration)
        → IsExact duration
        → Nearly (of_seconds (d.int_seconds duration)) duration
    kept_Nearly duration short =
        let (a, b) = of_seconds_parts (d.int_seconds duration) in
        let (c, e) = truncates.truncated duration short in
        (omega arith, omega arith, omega arith, omega arith)

    kept-NearlyOption :
        (o : Option Duration)
        → IsExactOption o
        → NearlyOption (seconds_to_duration (duration_seconds d o)) o
    unfolding seconds_to_duration duration_seconds
    kept-NearlyOption none short = tt
    kept-NearlyOption (some duration) short = kept_Nearly duration short

    -- An effect that is written to a row reads back with the arguments that the column gives and
    -- with a contract that differs only in its two durations: each, if they are of less than 270
    -- years, is cut to whole seconds, so it is closer to 0 by less than a second and never longer.
    pub row_to_record-record_values :
        (r : EffectRecord) (row : IntentRow)
        → IsExactOption r.contract.key_retention
        → IsExactOption r.contract.settlement_bound
        → record_values d r ≡ ok row
        → (json_value d r.request.arguments ≡ ok row.arguments_json)
          × (row_to_record row
              ≡ ok (record r {
                request = record r.request { arguments = row.arguments_json };
                contract = kept_contract r.contract;
              }))
          × NearlyOption (kept_contract r.contract).key_retention r.contract.key_retention
          × NearlyOption (kept_contract r.contract).settlement_bound r.contract.settlement_bound
    unfolding record_values row_to_record
    row_to_record-record_values r row retention bound h =
        elim (Result-cases (json_value d r.request.arguments)) [
          | inr (e, bad) ↦ ground (arith, h, bad)
          | inl (es, good) ↦ (
            ground (arith, h, good),
            ground (
              arith,
              h,
              good,
              effect_status-status_value r.status,
              safety_class-safety_value r.contract.safety,
            ),
            kept-NearlyOption r.contract.key_retention retention,
            kept-NearlyOption r.contract.settlement_bound bound,
          )
        ]
