-- ===== src/Store/Sqlite/Records.antt =====
-- How src/effect_broker/store/sqlite.py prints an effect into a row and reads it back.
use effect_broker.Prelude.{Text, text_eq, Option, none, some}
use effect_broker.Json.{Float, mapping}
use effect_broker.Models.{status_value, safety_value, EffectRecord, Duration}
use effect_broker.Errors.{Result, ok, ◌>>=◌}
use effect_broker.Platform.{Platform}
use effect_broker.Canonical.{canonical_json}
use effect_broker.Store.Sql.{first_where}
use effect_broker.Store.Values.{effect_status, safety_class}
use effect_broker.Store.Sqlite.Tables.{Decoders, EffectRow, Database, of_effect, of_identity}

module _ (d : Decoders) where
  -- `_duration_seconds`
  unfoldable pub duration_seconds : Option Duration → Option Float
  duration_seconds none = none
  duration_seconds (some value) = some (d.total_seconds value)

  -- `_seconds_to_duration`
  unfoldable pub seconds_to_duration : Option Float → Result (Option Duration)
  seconds_to_duration none = ok none
  seconds_to_duration (some value) = do duration ← d.timedelta_seconds value; ok (some duration)

  -- The tuple of `_record_params`, with the columns that the INSERT leaves NULL.
  unfoldable pub printed_row : Platform → EffectRecord → Text → EffectRow
  printed_row p r arguments_json = record {
    effect_id = r.effect_id;
    tenant_id = r.tenant_id;
    operation_key = r.request.operation_key;
    tool = r.request.tool;
    arguments_json = arguments_json;
    requested_by = r.request.requested_by;
    trace_id = r.request.trace_id;
    request_hash = r.request_hash;
    downstream_key = r.downstream_key;
    contract_name = r.contract.name;
    contract_version = r.contract.version;
    safety_class = safety_value r.contract.safety;
    retry_limit = r.contract.retry_limit;
    key_retention_seconds = duration_seconds r.contract.key_retention;
    settlement_bound_seconds = duration_seconds r.contract.settlement_bound;
    status = status_value r.status;
    version = r.version;
    created_at = p.isoformat r.created_at;
    updated_at = p.isoformat r.updated_at;
    worker_id = none;
    lease_worker_id = none;
    lease_until = none;
  }

  -- `_record_params`
  unfoldable pub record_params : Platform → EffectRecord → Result EffectRow
  unfolding printed_row
  record_params p r = do
    arguments_json ← canonical_json (mapping r.request.arguments)
    ok (printed_row p r arguments_json)

  -- `_row_to_record`
  unfoldable pub row_to_record : EffectRow → Result EffectRecord
  row_to_record row = do
    arguments ← d.loads row.arguments_json
    safety ← safety_class row.safety_class
    key_retention ← seconds_to_duration row.key_retention_seconds
    settlement_bound ← seconds_to_duration row.settlement_bound_seconds
    status ← effect_status row.status
    created_at ← d.fromisoformat row.created_at
    updated_at ← d.fromisoformat row.updated_at
    ok (record {
      effect_id = row.effect_id;
      tenant_id = row.tenant_id;
      request = record {
        operation_key = row.operation_key;
        tool = row.tool;
        arguments = arguments;
        requested_by = row.requested_by;
        trace_id = row.trace_id;
      };
      request_hash = row.request_hash;
      downstream_key = row.downstream_key;
      contract = record {
        name = row.contract_name;
        version = row.contract_version;
        safety = safety;
        retry_limit = row.retry_limit;
        key_retention = key_retention;
        settlement_bound = settlement_bound;
      };
      status = status;
      version = row.version;
      created_at = created_at;
      updated_at = updated_at;
    })

  -- `None if row is None else _row_to_record(row)`
  unfoldable pub read_row : Option EffectRow → Result (Option EffectRecord)
  read_row none = ok none
  read_row (some row) = do effect ← row_to_record row; ok (some effect)

  -- `_select_by_effect_id`
  unfoldable pub select_by_effect_id : Text → Database → Result (Option EffectRecord)
  unfolding read_row
  select_by_effect_id effect_id s = read_row (first_where (of_effect effect_id) s.effects)

  -- `_select_by_identity`
  unfoldable pub select_by_identity : Text → Text → Database → Result (Option EffectRecord)
  unfolding read_row
  select_by_identity tenant_id operation_key s =
      read_row (first_where (of_identity tenant_id operation_key) s.effects)
