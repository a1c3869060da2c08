-- ===== src/Store/Sqlite/RoundTrip.antt =====
-- What src/effect_broker/store/sqlite.py writes into a row reads back.
use effect_broker.Prelude.{◌≡◌, refl, Option, none, some, arith, Text, text_eq, ◌≤◌, ◌*◌, ◌+◌}
use effect_broker.Prelude.Int.{pos_part, neg_part}
use effect_broker.Json.{mapping, JsonObject}
use effect_broker.Models.{EffectRecord, Time, Duration}
use effect_broker.Errors.{ok, >>=-eq-ok}
use effect_broker.Platform.{Platform}
use effect_broker.Canonical.{canonical_json}
use effect_broker.Store.Sqlite.Tables.{Decoders, EffectRow, Database}
use effect_broker.Store.Sqlite.Records.{
  duration_seconds, seconds_to_duration, record_params, printed_row, row_to_record,
}
use effect_broker.Store.Values.{effect_status-status_value, safety_class-safety_value}

-- Durations of less than 270 years keep their microseconds as a float of seconds.
abbrev pub IsExact : Duration → Type 0
IsExact duration = pos_part duration + neg_part duration ≤ 270 * 365 * 86400 * 1000000

abbrev pub IsExactOption : Option Duration → Type 0
IsExactOption none = Unit
IsExactOption (some duration) = IsExact duration

-- What Python's library promises of times and durations, and that every COMMIT succeeds.
pub record Faithful (p : Platform) (d : Decoders) : Type 0 where
  pub time_back : (t : Time) → d.fromisoformat (p.isoformat t) ≡ ok t
  pub seconds_back :
      (duration : Duration)
      → IsExact duration
      → d.timedelta_seconds (d.total_seconds duration) ≡ ok duration
  pub commits : (s : Database) → d.commit s ≡ ok tt

-- `json.loads` gives these arguments back from their canonical text; it gives the keys in the order
-- of the text, which is sorted.
abbrev pub Reloads : Decoders → JsonObject → Type 0
Reloads d arguments =
    (t : Text) → canonical_json (mapping arguments) ≡ ok t → d.loads t ≡ ok arguments

module _ (p : Platform) (d : Decoders) (faithful : Faithful p d) where
  seconds_to_duration-duration_seconds :
      (o : Option Duration) → IsExactOption o → seconds_to_duration d (duration_seconds d o) ≡ ok o
  unfolding seconds_to_duration duration_seconds
  seconds_to_duration-duration_seconds none h = refl
  seconds_to_duration-duration_seconds (some duration) h = rw (faithful.seconds_back duration h)

  -- An effect that is written to a row reads back as it was, when `json.loads` gives its arguments
  -- back and the durations of its contract are of less than 270 years.
  pub row_to_record-record_params :
      (r : EffectRecord) (row : EffectRow)
      → Reloads d r.request.arguments
      → IsExactOption r.contract.key_retention
      → IsExactOption r.contract.settlement_bound
      → record_params d p r ≡ ok row
      → row_to_record d row ≡ ok r
  unfolding record_params printed_row row_to_record
  row_to_record-record_params r row reload retention bound written =
      let (t, encoded, same) =
        >>=-eq-ok (canonical_json (mapping r.request.arguments)) (λ t. ok (printed_row d p r t))
          written in
      let same_row : row ≡ printed_row d p r t = ground (arith, same) in
      rw (
        same_row,
        reload t encoded,
        safety_class-safety_value r.contract.safety,
        seconds_to_duration-duration_seconds r.contract.key_retention retention,
        seconds_to_duration-duration_seconds r.contract.settlement_bound bound,
        effect_status-status_value r.status,
        faithful.time_back r.created_at,
        faithful.time_back r.updated_at,
      )
