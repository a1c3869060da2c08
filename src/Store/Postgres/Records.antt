-- ===== src/Store/Postgres/Records.antt =====
-- How src/effect_broker/store/postgres.py puts an effect into a row and reads it back.
use effect_broker.Prelude.{◌+◌, ◌*◌, Text, Option, none, some, zero, suc}
use effect_broker.Prelude.Int.{ℤ, pos, negsuc}
use effect_broker.Json.{mapping, JsonObject}
use effect_broker.Models.{status_value, safety_value, EffectRecord, Duration}
use effect_broker.Errors.{Result, ok, ◌>>=◌}
use effect_broker.Canonical.{canonical_json}
use effect_broker.Store.Sql.{first_where}
use effect_broker.Store.Values.{effect_status, safety_class}
use effect_broker.Store.Postgres.Tables.{Driver, IntentRow, Database, of_intent, of_identity}

-- `-n` of a natural number
unfoldable pub negated : ℤ → ℤ
negated (pos zero) = pos 0
negated (pos (suc n)) = negsuc n
negated (negsuc n) = pos (n + 1)

-- `timedelta(seconds=value)`
unfoldable pub of_seconds : ℤ → Duration
unfolding negated
of_seconds (pos n) = pos (n * 1000000)
of_seconds (negsuc n) = negated (pos ((n + 1) * 1000000))

-- `_seconds_to_duration`
unfoldable pub seconds_to_duration : Option ℤ → Option Duration
unfolding of_seconds
seconds_to_duration none = none
seconds_to_duration (some value) = some (of_seconds value)

module _ (d : Driver) where
  -- `_duration_seconds`
  unfoldable pub duration_seconds : Option Duration → Option ℤ
  duration_seconds none = none
  duration_seconds (some value) = some (d.int_seconds value)

  -- `_json_value`, and what a JSONB column makes of it
  unfoldable pub json_value : JsonObject → Result JsonObject
  json_value value = do
    canonical ← canonical_json (mapping value)
    reloaded ← d.loads canonical
    d.jsonb reloaded

  -- `_record_values`, with the columns that the INSERT leaves NULL.
  unfoldable pub record_values : EffectRecord → Result IntentRow
  unfolding json_value duration_seconds
  record_values r = do
    arguments_json ← json_value r.request.arguments
    ok (record {
      effect_id = r.effect_id;
      tenant_id = r.tenant_id;
      operation_key = r.request.operation_key;
      tool = r.request.tool;
      arguments_json = arguments_json;
      requested_by = r.request.requested_by;
      trace_id = r.request.trace_id;
      request_hash = r.request_hash;
      downstream_key = r.downstream_key;
      contract_name = r.contract.name;
      contract_version = r.contract.version;
      safety_class = safety_value r.contract.safety;
      retry_limit = r.contract.retry_limit;
      key_retention_seconds = duration_seconds r.contract.key_retention;
      settlement_bound_seconds = duration_seconds r.contract.settlement_bound;
      status = status_value r.status;
      version = r.version;
      created_at = r.created_at;
      updated_at = r.updated_at;
      worker_id = none;
      lease_until = none;
    })

-- `_row_to_record`
unfoldable pub row_to_record : IntentRow → Result EffectRecord
unfolding seconds_to_duration
row_to_record row = do
  safety ← safety_class row.safety_class
  status ← effect_status row.status
  ok (record {
    effect_id = row.effect_id;
    tenant_id = row.tenant_id;
    request = record {
      operation_key = row.operation_key;
      tool = row.tool;
      arguments = row.arguments_json;
      requested_by = row.requested_by;
      trace_id = row.trace_id;
    };
    request_hash = row.request_hash;
    downstream_key = row.downstream_key;
    contract = record {
      name = row.contract_name;
      version = row.contract_version;
      safety = safety;
      retry_limit = row.retry_limit;
      key_retention = seconds_to_duration row.key_retention_seconds;
      settlement_bound = seconds_to_duration row.settlement_bound_seconds;
    };
    status = status;
    version = row.version;
    created_at = row.created_at;
    updated_at = row.updated_at;
  })

-- `None if row is None else _row_to_record(row)`
unfoldable pub read_row : Option IntentRow → Result (Option EffectRecord)
read_row none = ok none
read_row (some row) = do effect ← row_to_record row; ok (some effect)

-- `SELECT * FROM effect_intents WHERE effect_id = …`
unfoldable pub select_by_effect_id : Text → Database → Result (Option EffectRecord)
unfolding read_row
select_by_effect_id effect_id s = read_row (first_where (of_intent effect_id) s.intents)

-- `_select_by_identity`
unfoldable pub select_by_identity : Text → Text → Database → Result (Option EffectRecord)
unfolding read_row
select_by_identity tenant_id operation_key s =
    read_row (first_where (of_identity tenant_id operation_key) s.intents)
