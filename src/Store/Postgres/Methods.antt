-- ===== src/Store/Postgres/Methods.antt =====
-- The methods of src/effect_broker/store/postgres.py that change one effect. `begin` of the engine
-- is a transaction.
use effect_broker.Prelude.{
  ℕ, ◌+◌, Text, text, text_eq, ◌==◌, Bool, true, false, ◌&&◌, Option, none, some, [], ◌∷◌, ◌++◌,
  if◌then◌else◌, nat_beq,
}
use mathlib.Core.Option
use effect_broker.Prelude.Int.{pos}
use effect_broker.Json.{Value, null, str, int, mapping, JsonObject}
use effect_broker.Models.{
  EffectStatus, prepared, succeeded, status_eq, status_value, EffectRequest, EffectContract,
  EffectRecord, Reservation, Time,
}
use effect_broker.Errors.{
  Result, ok, err, payload_conflict, unknown_effect, version_conflict, other_exception,
}
use effect_broker.Exec.{Exec, ◌>>=◌, ◌>>◌, pure, lift, gets, or_raise}
use effect_broker.Platform.{Platform}
use effect_broker.Canonical.{request_hash, downstream_key}
use effect_broker.StateMachine.{assert_transition}
use effect_broker.Store.Rows.{object, attempt_id_of}
use effect_broker.Store.Memory.{get_member}
use effect_broker.Store.Sql.{first_where, count_where, update_where, transaction}
use effect_broker.Store.Postgres.Tables.{
  Driver, IntentRow, Database, of_intent, of_attempt, insert_tenant, insert_intent, insert_attempt,
  insert_receipt_row, insert_event, max_sequence,
}
use effect_broker.Store.Postgres.Records.{
  json_value, record_values, row_to_record, select_by_effect_id, select_by_identity,
}

-- A query whose row may not read back.
abbrev pub reads : {A : Type 0} → (Database → Result A) → Exec Database A
reads f s = (f s, s)

-- f"eff_{uuid.uuid4().hex}", of the digits that `uuid4` drew
unfoldable pub effect_id_of : Text → Text
effect_id_of hex = text "eff_" ++ hex

-- `_record_for_expected_version`. The row lock of `lock=True` adds nothing to a step that runs alone.
unfoldable pub record_for_expected_version : Text → ℕ → Exec Database EffectRecord
record_for_expected_version effect_id expected_version = do
  found ← reads (select_by_effect_id effect_id)
  effect ← or_raise found (unknown_effect effect_id)
  lift (
      if nat_beq effect.version expected_version
      then ok effect
      else err (version_conflict effect_id expected_version effect.version))

-- The columns that the UPDATE of `transition` sets.
unfoldable pub moved_row : EffectStatus → Time → IntentRow → IntentRow
moved_row target now row = record row {
  status = status_value target;
  version = row.version + 1;
  updated_at = now;
  worker_id = none;
  lease_until = none;
}

abbrev pub of_version : Text → ℕ → IntentRow → Bool
of_version effect_id version row = of_intent effect_id row && nat_beq row.version version

-- The UPDATE of `transition`, with the row that its RETURNING gives.
unfoldable pub update_intent : Text → ℕ → EffectStatus → Time → Exec Database (Option IntentRow)
unfolding moved_row
update_intent effect_id expected_version target now s = (
  ok (
      Option.map (moved_row target now)
        (first_where (of_version effect_id expected_version) s.intents)),
  record s {
    intents = update_where (of_version effect_id expected_version) (moved_row target now) s.intents;
  },
)

-- `data.get("external_id")` as a value for a text column
unfoldable pub external_id_of : Option Value → Result (Option Text)
external_id_of none = ok none
external_id_of (some null) = ok none
external_id_of (some (str t)) = ok (some t)
external_id_of (some _) = err (other_exception (text "ProgrammingError"))

-- The first statements of `transition`: the effect that is read and the edge that is checked.
unfoldable pub transition_read : Text → ℕ → EffectStatus → Exec Database EffectRecord
unfolding record_for_expected_version
transition_read effect_id expected_version target = do
  before ← record_for_expected_version effect_id expected_version
  lift (assert_transition before.status target)
  pure before

-- The reservation of an identity that is there already. The error of a row that disappeared names
-- no versions.
unfoldable pub reserve_known : EffectRequest → Text → Option EffectRecord → Result Reservation
reserve_known request digest none = err (version_conflict request.operation_key 0 0)
reserve_known request digest (some existing) =
    if existing.request_hash == digest
    then ok (record { effect = existing; created = false; replayed = true })
    else err (payload_conflict request.operation_key existing.request_hash digest)

module _ (d : Driver) where
  -- `_append_event`
  unfoldable pub append_event : Text → Text → ℕ → JsonObject → Time → Exec Database (Unit {0})
  append_event effect_id event_type version payload at = do
    last ← gets (λ s. max_sequence effect_id s.events)
    data_json ← lift (json_value d payload)
    insert_event (record {
      effect_id = effect_id;
      sequence = last + 1;
      event_type = event_type;
      version = version;
      at = at;
      data_json = data_json;
    })

  -- `_insert_receipt`, with the digits that `uuid4` drew
  unfoldable pub insert_receipt : EffectRecord → JsonObject → Time → Text → Exec Database (Unit {0})
  unfolding external_id_of
  insert_receipt effect payload at hex = do
    external_id ← lift (external_id_of (get_member (text "external_id") payload))
    metadata_json ← lift (json_value d payload)
    insert_receipt_row (record {
      receipt_id = text "rcpt_" ++ hex;
      effect_id = effect.effect_id;
      external_id = external_id;
      contract_name = effect.contract.name;
      contract_version = effect.contract.version;
      downstream_key = effect.downstream_key;
      metadata_json = metadata_json;
      created_at = at;
    })

  -- The statements of `start_attempt` inside its transaction.
  unfoldable pub start_attempt_body : Text → ℕ → Text → Time → Exec Database Text
  unfolding record_for_expected_version append_event object
  start_attempt_body effect_id expected_version worker_id now = do
    effect ← record_for_expected_version effect_id expected_version
    made ← gets (λ s. count_where (of_attempt effect_id) s.attempts)
    let ordinal = made + 1
    let attempt_id = attempt_id_of effect_id ordinal
    insert_attempt (record {
      attempt_id = attempt_id;
      effect_id = effect_id;
      ordinal = ordinal;
      worker_id = worker_id;
      version = expected_version;
      started_at = now;
    })
    append_event effect_id (text "attempt_started") effect.version
        (object (
          (text "attempt_id", str attempt_id)
          ∷ (text "ordinal", int (pos ordinal))
          ∷ (text "worker_id", str worker_id)
          ∷ []))
        now
    pure attempt_id

  unfoldable pub start_attempt : Text → ℕ → Text → Time → Exec Database Text
  unfolding start_attempt_body
  start_attempt effect_id expected_version worker_id now =
      transaction (start_attempt_body effect_id expected_version worker_id now)

  -- The receipt of a success, and nothing for another target.
  unfoldable pub record_receipt :
      EffectStatus → EffectRecord → JsonObject → Time → Text → Exec Database (Unit {0})
  unfolding insert_receipt
  record_receipt target effect metadata now hex s =
      if target == succeeded then insert_receipt effect metadata now hex s else (ok tt, s)

  -- The statements that write. The error of an UPDATE that reached no row has no found version in
  -- its message; it carries the version that was read before.
  unfoldable pub transition_write :
      Text → ℕ → EffectStatus → JsonObject → Time → Text → EffectRecord → Exec Database EffectRecord
  unfolding update_intent append_event object record_receipt
  transition_write effect_id expected_version target metadata now hex before = do
    returned ← update_intent effect_id expected_version target now
    updated ← or_raise returned (version_conflict effect_id expected_version before.version)
    append_event effect_id (text "transition") updated.version
        (object (
          (text "from", str (status_value before.status))
          ∷ (text "to", str (status_value target))
          ∷ (text "metadata", mapping metadata)
          ∷ []))
        now
    effect ← lift (row_to_record updated)
    record_receipt target effect metadata now hex
    pure effect

  unfoldable pub transition :
      Text → ℕ → EffectStatus → JsonObject → Time → Text → Exec Database EffectRecord
  unfolding transition_read transition_write
  transition effect_id expected_version target metadata now hex = transaction (
      transition_read effect_id expected_version target
      >>= transition_write effect_id expected_version target metadata now hex)

  -- What follows the INSERT, by whether it returned a row.
  unfoldable pub reserve_after :
      Text
      → EffectRequest
      → Text
      → EffectRecord
      → Time
      → Option IntentRow
      → Exec Database Reservation
  unfolding reserve_known append_event object
  reserve_after tenant_id request digest effect now none = do
    existing ← reads (select_by_identity tenant_id request.operation_key)
    lift (reserve_known request digest existing)
  reserve_after tenant_id request digest effect now (some inserted) = do
    append_event effect.effect_id (text "reserved") effect.version
        (object ((text "status", str (status_value effect.status)) ∷ [])) now
    stored ← lift (row_to_record inserted)
    pure (record { effect = stored; created = true; replayed = false })

  -- The statements of `reserve` inside its transaction.
  unfoldable pub reserve_body :
      Text → EffectRequest → Text → EffectRecord → Time → Exec Database Reservation
  unfolding reserve_after
  reserve_body tenant_id request digest effect now = do
    insert_tenant tenant_id
    row ← lift (record_values d effect)
    inserted ← insert_intent row
    reserve_after tenant_id request digest effect now inserted

  module _ (p : Platform) (tenant_key : Text → Text) where
    unfoldable pub new_record :
        Text → EffectRequest → EffectContract → Text → Time → Text → EffectRecord
    new_record tenant_id request contract digest now effect_id = record {
      effect_id = effect_id;
      tenant_id = tenant_id;
      request = request;
      request_hash = digest;
      downstream_key = downstream_key p (tenant_key tenant_id) tenant_id request.operation_key;
      contract = contract;
      status = prepared;
      version = 0;
      created_at = now;
      updated_at = now;
    }

    unfoldable pub reserve :
        Text → EffectRequest → EffectContract → Time → Text → Exec Database Reservation
    unfolding reserve_body new_record
    reserve tenant_id request contract now hex = do
      digest ← lift (request_hash p request.tool request.arguments contract.name contract.version)
      let effect = new_record tenant_id request contract digest now (effect_id_of hex)
      transaction (reserve_body tenant_id request digest effect now)
