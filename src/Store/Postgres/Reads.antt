-- ===== src/Store/Postgres/Reads.antt =====
-- The methods of src/effect_broker/store/postgres.py that read.
use effect_broker.Prelude.{
  ℕ, Text, text, text_eq, ◌==◌, Bool, ◌&&◌, Option, none, some, List, [], ◌∷◌, ◌++◌, if◌then◌else◌,
  keep_if, take, drop, length, ltb,
}
use effect_broker.Json.{str, mapping, JsonObject}
use effect_broker.Models.{EffectStatus, succeeded, status_value, EffectRecord, Time}
use effect_broker.Errors.{Result, ok, ◌>>=◌}
use effect_broker.Platform.{Platform}
use effect_broker.Store.Rows.{object}
use effect_broker.Store.Sql.{first_where, count_where}
use effect_broker.Store.Postgres.Tables.{
  IntentRow, ReceiptRow, EventRow, Database, of_intent, of_attempt, of_receipt, of_event,
}
use effect_broker.Store.Postgres.Records.{row_to_record, read_row}
use effect_broker.Store.Postgres.Claim.{order_rows}

pub record PostgresEvent : Type 0 where
  pub effect_id : Text
  pub sequence : ℕ
  pub event_type : Text
  pub version : ℕ
  pub at : Time
  pub payload : JsonObject

-- `WHERE tenant_id = … AND effect_id = …`
abbrev pub of_tenant : Text → Text → IntentRow → Bool
of_tenant tenant_id effect_id row = row.tenant_id == tenant_id && row.effect_id == effect_id

unfoldable pub get : Text → Text → Database → Result (Option EffectRecord)
unfolding read_row
get tenant_id effect_id s = read_row (first_where (of_tenant tenant_id effect_id) s.intents)

-- The WHERE clauses of `list`.
unfoldable pub is_listed : Text → Option EffectStatus → IntentRow → Bool
is_listed tenant_id none row = row.tenant_id == tenant_id
is_listed tenant_id (some status) row =
    row.tenant_id == tenant_id && row.status == status_value status

-- `[_row_to_record(row) for row in rows]`
unfoldable pub read_rows : List IntentRow → Result (List EffectRecord)
read_rows [] = ok []
read_rows (row ∷ rows) = do
  effect ← row_to_record row
  effects ← read_rows rows
  ok (effect ∷ effects)

-- PostgreSQL refuses a negative limit or offset, so both are natural numbers.
unfoldable pub list : Text → Option EffectStatus → ℕ → ℕ → Database → Result (List EffectRecord)
unfolding is_listed
list tenant_id status limit offset s =
    read_rows
      (take limit (drop offset (order_rows (keep_if (is_listed tenant_id status) s.intents))))

unfoldable pub receipt_value : Platform → Text → ReceiptRow → JsonObject
receipt_value p effect_id row = object (
    (text "effect_id", str effect_id)
    ∷ (text "status", str (status_value succeeded))
    ∷ (text "contract", str row.contract_name)
    ∷ (text "contract_version", str row.contract_version)
    ∷ (text "downstream_key", str row.downstream_key)
    ∷ (text "metadata", mapping row.metadata_json)
    ∷ (text "recorded_at", str (p.isoformat row.created_at))
    ∷ [])

-- The join of a receipt with the effect that it belongs to, when this is the tenant's.
unfoldable pub receipt_with :
    Platform → Text → Text → Option IntentRow → Option ReceiptRow → Option JsonObject
unfolding receipt_value
receipt_with p tenant_id effect_id (some row) (some receipt) =
    if row.tenant_id == tenant_id then some (receipt_value p effect_id receipt) else none
receipt_with p tenant_id effect_id _ _ = none

unfoldable pub receipt : Platform → Text → Text → Database → Option JsonObject
unfolding receipt_with
receipt p tenant_id effect_id s =
    receipt_with p tenant_id effect_id (first_where (of_intent effect_id) s.intents)
      (first_where (of_receipt effect_id) s.receipts)

-- `ORDER BY sequence`
unfoldable pub insert_event_row : EventRow → List EventRow → List EventRow
insert_event_row e [] = e ∷ []
insert_event_row e (x ∷ xs) =
    let rest = insert_event_row e xs in if ltb x.sequence e.sequence then x ∷ rest else e ∷ x ∷ xs

unfoldable pub order_events : List EventRow → List EventRow
unfolding insert_event_row
order_events [] = []
order_events (e ∷ es) = insert_event_row e (order_events es)

unfoldable pub read_events : List EventRow → List PostgresEvent
read_events [] = []
read_events (row ∷ rows) =
    record {
      effect_id = row.effect_id;
      sequence = row.sequence;
      event_type = row.event_type;
      version = row.version;
      at = row.at;
      payload = row.data_json;
    }
    ∷ read_events rows

unfoldable pub events : Text → Database → List PostgresEvent
unfolding order_events read_events
events effect_id s = read_events (order_events (keep_if (of_event effect_id) s.events))

unfoldable pub attempt_count : Text → Database → ℕ
attempt_count effect_id s = count_where (of_attempt effect_id) s.attempts

unfoldable pub count : Database → ℕ
count s = length s.intents

-- `s.removeprefix(prefix)` when `s` starts with it
unfoldable pub after_prefix : Text → Text → Option Text
after_prefix [] s = some s
after_prefix (c ∷ prefix) [] = none
after_prefix (c ∷ prefix) (x ∷ s) =
    let rest = after_prefix prefix s in if (x ∷ []) == (c ∷ []) then rest else none

unfoldable pub postgresql_dsn : Text → Option Text → Text
postgresql_dsn dsn none = dsn
postgresql_dsn dsn (some rest) = text "postgresql://" ++ rest

unfoldable pub psycopg_dsn : Text → Option Text → Text
psycopg_dsn dsn none = dsn
psycopg_dsn dsn (some rest) = text "postgresql+psycopg://" ++ rest

-- `_async_dsn`
unfoldable pub async_dsn : Text → Text
unfolding after_prefix postgresql_dsn psycopg_dsn
async_dsn dsn =
    let named = postgresql_dsn dsn (after_prefix (text "postgres://") dsn) in
    psycopg_dsn named (after_prefix (text "postgresql://") named)
