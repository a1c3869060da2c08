-- ===== src/Store/Sqlite/Reads.antt =====
-- The methods of src/effect_broker/store/sqlite.py that read.
use effect_broker.Prelude.{
  ℕ, Text, text, text_eq, ◌==◌, Bool, ◌&&◌, Option, none, some, List, [], ◌∷◌, reverse,
  if◌then◌else◌, keep_if, take, drop, length, ltb,
}
use effect_broker.Prelude.Int.{ℤ, pos, negsuc}
use effect_broker.Json.{str, mapping, JsonObject}
use effect_broker.Models.{EffectStatus, succeeded, status_value, EffectRecord, Time}
use effect_broker.Errors.{Result, ok, ◌>>=◌}
use effect_broker.Store.Rows.{object}
use effect_broker.Store.Memory.{get_member, is_text, metadata_of}
use effect_broker.Store.Sql.{first_where, count_where}
use effect_broker.Store.Sqlite.Tables.{
  Decoders, EffectRow, EventRow, Database, of_attempt, of_event,
}
use effect_broker.Store.Sqlite.Records.{row_to_record, read_row}
use effect_broker.Store.Sqlite.Claim.{order_rows}

pub record SqliteEvent : Type 0 where
  pub effect_id : Text
  pub sequence : ℕ
  pub event_type : Text
  pub version : ℕ
  pub at : Time
  pub payload : JsonObject

-- `WHERE tenant_id = ? AND effect_id = ?`
abbrev pub of_tenant : Text → Text → EffectRow → Bool
of_tenant tenant_id effect_id row = row.tenant_id == tenant_id && row.effect_id == effect_id

-- The WHERE clause of `list`.
unfoldable pub is_listed : Text → Option EffectStatus → EffectRow → Bool
is_listed tenant_id none row = row.tenant_id == tenant_id
is_listed tenant_id (some status) row =
    row.tenant_id == tenant_id && row.status == status_value status

-- `LIMIT ? OFFSET ?`: a negative limit is no limit, a negative offset is 0.
unfoldable pub offset_rows : ℤ → List EffectRow → List EffectRow
offset_rows (pos n) rows = drop n rows
offset_rows (negsuc n) rows = rows

unfoldable pub limit_rows : ℤ → List EffectRow → List EffectRow
limit_rows (pos n) rows = take n rows
limit_rows (negsuc n) rows = rows

-- `ORDER BY sequence`
unfoldable pub insert_event_row : EventRow → List EventRow → List EventRow
insert_event_row e [] = e ∷ []
insert_event_row e (x ∷ xs) =
    let rest = insert_event_row e xs in if ltb x.sequence e.sequence then x ∷ rest else e ∷ x ∷ xs

unfoldable pub order_events : List EventRow → List EventRow
unfolding insert_event_row
order_events [] = []
order_events (e ∷ es) = insert_event_row e (order_events es)

-- `SELECT COUNT(*) FROM attempts WHERE effect_id = ?`
unfoldable pub attempt_count : Text → Database → ℕ
attempt_count effect_id s = count_where (of_attempt effect_id) s.attempts

unfoldable pub count : Database → ℕ
count s = length s.effects

module _ (d : Decoders) where
  unfoldable pub get : Text → Text → Database → Result (Option EffectRecord)
  unfolding read_row
  get tenant_id effect_id s = read_row d (first_where (of_tenant tenant_id effect_id) s.effects)

  -- `[_row_to_record(row) for row in rows]`
  unfoldable pub read_rows : List EffectRow → Result (List EffectRecord)
  read_rows [] = ok []
  read_rows (row ∷ rows) = do
    effect ← row_to_record d row
    effects ← read_rows rows
    ok (effect ∷ effects)

  unfoldable pub list : Text → Option EffectStatus → ℤ → ℤ → Database → Result (List EffectRecord)
  unfolding offset_rows limit_rows is_listed
  list tenant_id status limit offset s = read_rows (
      limit_rows limit
        (offset_rows offset (order_rows (keep_if (is_listed tenant_id status) s.effects))))

  unfoldable pub read_events : List EventRow → Result (List SqliteEvent)
  read_events [] = ok []
  read_events (row ∷ rows) = do
    at ← d.fromisoformat row.at
    payload ← d.loads row.data_json
    later ← read_events rows
    ok (
        record {
          effect_id = row.effect_id;
          sequence = row.sequence;
          event_type = row.event_type;
          version = row.version;
          at = at;
          payload = payload;
        }
        ∷ later)

  unfoldable pub events : Text → Database → Result (List SqliteEvent)
  events effect_id s = read_events (order_events (keep_if (of_event effect_id) s.events))

  -- The loop over the transitions, from the newest: the first to `SUCCEEDED` with its payload.
  unfoldable pub newest_success : List EventRow → Result (Option (EventRow × JsonObject))
  newest_success [] = ok none
  newest_success (event ∷ rest) = do
    payload ← d.loads event.data_json
    if is_text (status_value succeeded) (get_member (text "to") payload)
        then ok (some (event, payload))
        else newest_success rest

  unfoldable pub receipt_of :
      Text → EffectRecord → Option (EventRow × JsonObject) → Result (Option JsonObject)
  receipt_of effect_id effect none = ok none
  receipt_of effect_id effect (some (event, payload)) = do
    metadata ← metadata_of (get_member (text "metadata") payload)
    ok (
        some (
          object (
            (text "effect_id", str effect_id)
            ∷ (text "status", str (status_value succeeded))
            ∷ (text "contract", str effect.contract.name)
            ∷ (text "contract_version", str effect.contract.version)
            ∷ (text "downstream_key", str effect.downstream_key)
            ∷ (text "metadata", mapping metadata)
            ∷ (text "recorded_at", str event.at)
            ∷ [])))

  -- `WHERE effect_id = ? AND event_type = ? ORDER BY sequence DESC`
  unfoldable pub transitions_of : Text → Database → List EventRow
  transitions_of effect_id s = reverse (
      order_events
        (keep_if (λ e. of_event effect_id e && e.event_type == text "transition") s.events))

  unfoldable pub receipt_with : Text → Option EffectRecord → Database → Result (Option JsonObject)
  unfolding receipt_of transitions_of
  receipt_with effect_id none s = ok none
  receipt_with effect_id (some effect) s = do
    newest ← newest_success (transitions_of effect_id s)
    receipt_of effect_id effect newest

  unfoldable pub receipt : Text → Text → Database → Result (Option JsonObject)
  unfolding get receipt_with
  receipt tenant_id effect_id s = do
    found ← get tenant_id effect_id s
    receipt_with effect_id found s
