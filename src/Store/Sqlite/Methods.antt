-- ===== src/Store/Sqlite/Methods.antt =====
-- The methods of src/effect_broker/store/sqlite.py that change one effect.
use effect_broker.Prelude.{
  ℕ, ◌+◌, Text, text, text_eq, ◌==◌, Bool, true, false, ◌&&◌, Option, none, some, [], ◌∷◌, ◌++◌,
  if◌then◌else◌, nat_beq,
}
use effect_broker.Prelude.Int.{pos}
use effect_broker.Json.{str, int, mapping, JsonObject}
use effect_broker.Models.{
  EffectStatus, prepared, status_value, EffectRequest, EffectContract, EffectRecord, Reservation,
  Time,
}
use effect_broker.Errors.{Result, ok, err, payload_conflict, unknown_effect, version_conflict}
use effect_broker.Exec.{Exec, ◌>>=◌, ◌>>◌, pure, lift, gets, or_raise}
use effect_broker.Platform.{Platform}
use effect_broker.Canonical.{canonical_json, request_hash, downstream_key}
use effect_broker.StateMachine.{assert_transition}
use effect_broker.Store.Rows.{object, attempt_id_of}
use effect_broker.Store.Sql.{count_where, update_where}
use effect_broker.Store.Sqlite.Tables.{
  in_transaction, Decoders, EffectRow, Database, of_effect, of_attempt, of_event, insert_effect,
  insert_attempt, insert_event, is_integrity_error, integrity_error,
}
use effect_broker.Store.Sqlite.Records.{record_params, select_by_effect_id, select_by_identity}

-- A query whose row may not read back.
abbrev pub reads : {A : Type 0} → (Database → Result A) → Exec Database A
reads f s = (f s, s)

-- f"eff_{uuid.uuid4().hex}", of the digits that `uuid4` drew
unfoldable pub effect_id_of : Text → Text
effect_id_of hex = text "eff_" ++ hex

-- `try: … except sqlite3.IntegrityError`: whether the statement ran.
unfoldable pub caught : Result (Unit {0}) × Database → Result Bool × Database
caught (ok done, s) = (ok true, s)
caught (err e, s) = (if is_integrity_error e then ok false else err e, s)

unfoldable pub tried : Exec Database (Unit {0}) → Exec Database Bool
unfolding caught
tried statement s = caught (statement s)

-- `WHERE effect_id = ? AND version = ?`
abbrev pub of_version : Text → ℕ → EffectRow → Bool
of_version effect_id version row = of_effect effect_id row && nat_beq row.version version

-- The handler of the IntegrityError.
unfoldable pub reserve_known : EffectRequest → Text → Option EffectRecord → Result Reservation
reserve_known request digest none = err integrity_error
reserve_known request digest (some existing) =
    if existing.request_hash == digest
    then ok (record { effect = existing; created = false; replayed = true })
    else err (payload_conflict request.operation_key existing.request_hash digest)

module _ (p : Platform) where
  -- The columns that the UPDATE of `transition` sets.
  unfoldable pub moved_row : EffectStatus → Time → EffectRow → EffectRow
  moved_row target now row = record row {
    status = status_value target;
    version = row.version + 1;
    updated_at = p.isoformat now;
    worker_id = none;
    lease_worker_id = none;
    lease_until = none;
  }

  -- The UPDATE of `transition`; its `rowcount` comes back.
  unfoldable pub update_effect : Text → ℕ → EffectStatus → Time → Exec Database ℕ
  unfolding moved_row
  update_effect effect_id expected_version target now s = (
    ok (count_where (of_version effect_id expected_version) s.effects),
    record s {
      effects =
          update_where (of_version effect_id expected_version) (moved_row target now) s.effects;
    },
  )

  unfoldable pub new_record :
      (Text → Text) → Text → EffectRequest → EffectContract → Text → Time → Text → EffectRecord
  new_record tenant_key tenant_id request contract digest now effect_id = record {
    effect_id = effect_id;
    tenant_id = tenant_id;
    request = request;
    request_hash = digest;
    downstream_key = downstream_key p (tenant_key tenant_id) tenant_id request.operation_key;
    contract = contract;
    status = prepared;
    version = 0;
    created_at = now;
    updated_at = now;
  }

  -- `_append_event`
  unfoldable pub append_event : Text → Text → ℕ → JsonObject → Time → Exec Database (Unit {0})
  append_event effect_id event_type version payload at = do
    logged ← gets (λ s. count_where (of_event effect_id) s.events)
    data_json ← lift (canonical_json (mapping payload))
    insert_event (record {
      effect_id = effect_id;
      sequence = logged + 1;
      event_type = event_type;
      version = version;
      at = p.isoformat at;
      data_json = data_json;
    })

  module _ (d : Decoders) where
    -- `_record_for_expected_version`
    unfoldable pub record_for_expected_version : Text → ℕ → Exec Database EffectRecord
    record_for_expected_version effect_id expected_version = do
      found ← reads (select_by_effect_id d effect_id)
      effect ← or_raise found (unknown_effect effect_id)
      lift (
          if nat_beq effect.version expected_version
          then ok effect
          else err (version_conflict effect_id expected_version effect.version))

    -- The statements of `start_attempt` inside its transaction.
    unfoldable pub start_attempt_body : Text → ℕ → Text → Time → Exec Database Text
    unfolding record_for_expected_version append_event object
    start_attempt_body effect_id expected_version worker_id now = do
      effect ← record_for_expected_version effect_id expected_version
      made ← gets (λ s. count_where (of_attempt effect_id) s.attempts)
      let ordinal = made + 1
      let attempt_id = attempt_id_of effect_id ordinal
      insert_attempt (record {
        attempt_id = attempt_id;
        effect_id = effect_id;
        ordinal = ordinal;
        worker_id = worker_id;
        version = expected_version;
        started_at = p.isoformat now;
      })
      append_event effect_id (text "attempt_started") effect.version
          (object (
            (text "attempt_id", str attempt_id)
            ∷ (text "ordinal", int (pos ordinal))
            ∷ (text "worker_id", str worker_id)
            ∷ []))
          now
      pure attempt_id

    unfoldable pub start_attempt : Text → ℕ → Text → Time → Exec Database Text
    unfolding start_attempt_body
    start_attempt effect_id expected_version worker_id now =
        in_transaction d (start_attempt_body effect_id expected_version worker_id now)

    -- The statements of `transition` inside its transaction. The error of an UPDATE that reached
    -- no row has no found version in its message; it carries the version that was read before.
    unfoldable pub transition_body :
        Text → ℕ → EffectStatus → JsonObject → Time → Exec Database EffectRecord
    unfolding record_for_expected_version append_event object update_effect
    transition_body effect_id expected_version target metadata now = do
      before ← record_for_expected_version effect_id expected_version
      lift (assert_transition before.status target)
      rowcount ← update_effect effect_id expected_version target now
      lift (
          if nat_beq rowcount 0
          then err (version_conflict effect_id expected_version before.version)
          else ok (tt {0}))
      found ← reads (select_by_effect_id d effect_id)
      updated ← or_raise found (unknown_effect effect_id)
      append_event effect_id (text "transition") updated.version
          (object (
            (text "from", str (status_value before.status))
            ∷ (text "to", str (status_value target))
            ∷ (text "metadata", mapping metadata)
            ∷ []))
          now
      pure updated

    unfoldable pub transition :
        Text → ℕ → EffectStatus → JsonObject → Time → Exec Database EffectRecord
    unfolding transition_body
    transition effect_id expected_version target metadata now =
        in_transaction d (transition_body effect_id expected_version target metadata now)

    module _ (tenant_key : Text → Text) where
      unfoldable pub reserve_after :
          Text → EffectRequest → Text → EffectRecord → Time → Bool → Exec Database Reservation
      unfolding reserve_known append_event object
      reserve_after tenant_id request digest effect now false = do
        existing ← reads (select_by_identity d tenant_id request.operation_key)
        lift (reserve_known request digest existing)
      reserve_after tenant_id request digest effect now true = do
        append_event effect.effect_id (text "reserved") effect.version
            (object ((text "status", str (status_value effect.status)) ∷ [])) now
        pure (record { effect = effect; created = true; replayed = false })

      -- The statements of `reserve` inside its transaction.
      unfoldable pub reserve_body :
          Text → EffectRequest → Text → EffectRecord → Time → Exec Database Reservation
      unfolding reserve_after
      reserve_body tenant_id request digest effect now = do
        inserted ← tried (do row ← lift (record_params d p effect); insert_effect row)
        reserve_after tenant_id request digest effect now inserted

      unfoldable pub reserve :
          Text → EffectRequest → EffectContract → Time → Text → Exec Database Reservation
      unfolding reserve_body new_record
      reserve tenant_id request contract now hex = do
        digest ← lift (request_hash p request.tool request.arguments contract.name contract.version)
        let effect = new_record tenant_key tenant_id request contract digest now (effect_id_of hex)
        in_transaction d (reserve_body tenant_id request digest effect now)
