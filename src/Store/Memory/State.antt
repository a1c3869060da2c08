-- ===== src/Store/Memory/State.antt =====
-- The state of `InMemoryStore` and the methods that change one effect
-- (src/effect_broker/store/memory.py).
use effect_broker.Prelude.{
  ℕ, ◌+◌, Text, text, text_eq, pair_eq, Bool, true, false, Option, none, some, List, [], ◌∷◌, ◌++◌,
  length, if◌then◌else◌, ◌==◌, nat_beq,
}
use effect_broker.Prelude.Int.{pos}
use effect_broker.Prelude.Dict.{Dict, lookup, insert, erase}
use effect_broker.Prelude.Decimal.{str_nat, pad_zero}
use effect_broker.Json.{str, int, mapping, JsonObject}
use effect_broker.Models.{
  EffectStatus, prepared, retryable, status_eq, status_beq, status_value, contains, EffectRequest,
  EffectContract, EffectRecord, Reservation, Time,
}
use effect_broker.Errors.{ok, err, payload_conflict, version_conflict, unknown_effect, key_error}
use effect_broker.Exec.{Exec, pure, lift, gets, require, modify, ◌>>=◌, ◌>>◌}
use effect_broker.Platform.{Platform}
use effect_broker.Canonical.{request_hash, downstream_key}
use effect_broker.Store.Rows.{object, attempt_id_of, updated_record}
use effect_broker.StateMachine.{assert_transition}

-- The event types "reserved", "claimed", "attempt_started" and "transition".
pub data EventType : Type 0 where
  reserved claimed attempt_started transitioned : EventType

pub record MemoryEvent : Type 0 where
  pub effect_id : Text
  pub sequence : ℕ
  pub event_type : EventType
  pub version : ℕ
  pub at : Time
  pub payload : JsonObject

pub record Lease : Type 0 where
  pub worker_id : Text
  pub expires_at : Time

pub record Attempt : Type 0 where
  pub attempt_id : Text
  pub effect_id : Text
  pub ordinal : ℕ
  pub worker_id : Text
  pub version : ℕ
  pub started_at : Time

pub record MemoryStore : Type 0 where
  pub records : Dict Text EffectRecord
  pub identity : Dict (Text × Text) Text
  pub leases : Dict Text Lease
  pub attempts : Dict Text (List Attempt)
  pub events : Dict Text (List MemoryEvent)
  pub next_effect_id : ℕ

-- `__init__`
unfoldable pub empty_store : MemoryStore
empty_store = record {
  records = [];
  identity = [];
  leases = [];
  attempts = [];
  events = [];
  next_effect_id = 1;
}

-- f"eff_{n:06d}"
unfoldable pub effect_id_of : ℕ → Text
effect_id_of n = text "eff_" ++ pad_zero 6 (str_nat n)

-- `_append_event_locked`
unfoldable pub append_event : Text → EventType → ℕ → JsonObject → Time → Exec MemoryStore (Unit {0})
append_event effect_id event_type version payload at = do
  log ← require (λ s. lookup effect_id s.events) (key_error effect_id)
  modify λ s. record s {
    events =
        insert effect_id
          (log
            ++ record {
              effect_id = effect_id;
              sequence = length log + 1;
              event_type = event_type;
              version = version;
              at = at;
              payload = payload;
            }
              ∷ [])
          s.events;
  }

-- The version test of `_record_for_update_locked`.
abbrev check_version : Text → ℕ → EffectRecord → Exec MemoryStore EffectRecord
check_version effect_id expected_version effect s = (
  if nat_beq effect.version expected_version
      then ok effect
      else err (version_conflict effect_id expected_version effect.version),
  s,
)

-- `_record_for_update_locked`
unfoldable pub record_for_update : Text → ℕ → Exec MemoryStore EffectRecord
record_for_update effect_id expected_version = do
  effect ← require (λ s. lookup effect_id s.records) (unknown_effect effect_id)
  check_version effect_id expected_version effect

-- The reservation of an identity that is there already.
unfoldable pub reserve_replay : EffectRequest → Text → Text → Exec MemoryStore Reservation
reserve_replay request digest existing_id = do
  existing ← require (λ s. lookup existing_id s.records) (key_error existing_id)
  lift (
      if existing.request_hash == digest
      then ok (record { effect = existing; created = false; replayed = true })
      else err (payload_conflict request.operation_key existing.request_hash digest))

module _ (p : Platform) (tenant_key : Text → Text) where
  unfoldable pub new_record :
      Text → EffectRequest → EffectContract → Text → Time → Text → EffectRecord
  new_record tenant_id request contract digest now effect_id = record {
    effect_id = effect_id;
    tenant_id = tenant_id;
    request = request;
    request_hash = digest;
    downstream_key = downstream_key p (tenant_key tenant_id) tenant_id request.operation_key;
    contract = contract;
    status = prepared;
    version = 0;
    created_at = now;
    updated_at = now;
  }

  -- The reservation of a new identity.
  unfoldable pub reserve_new :
      Text → EffectRequest → EffectContract → Text → Time → Exec MemoryStore Reservation
  unfolding new_record append_event object
  reserve_new tenant_id request contract digest now = do
    n ← gets (λ s. s.next_effect_id)
    let effect_id = effect_id_of n
    let effect = new_record tenant_id request contract digest now effect_id
    modify λ s. record s {
      next_effect_id = n + 1;
      identity = insert (tenant_id, request.operation_key) effect_id s.identity;
      records = insert effect_id effect s.records;
      attempts = insert effect_id [] s.attempts;
      events = insert effect_id [] s.events;
    }
    append_event effect_id reserved effect.version
        (object ((text "status", str (status_value effect.status)) ∷ [])) now
    pure (record { effect = effect; created = true; replayed = false })

  reserve_with :
      Text
      → EffectRequest
      → EffectContract
      → Text
      → Time
      → Option Text
      → Exec MemoryStore Reservation
  reserve_with tenant_id request contract digest now none =
      reserve_new tenant_id request contract digest now
  reserve_with tenant_id request contract digest now (some existing_id) =
      reserve_replay request digest existing_id

  unfoldable pub reserve :
      Text → EffectRequest → EffectContract → Time → Exec MemoryStore Reservation
  unfolding reserve_with
  reserve tenant_id request contract now = do
    digest ← lift (request_hash p request.tool request.arguments contract.name contract.version)
    existing_id ← gets (λ s. lookup (tenant_id, request.operation_key) s.identity)
    reserve_with tenant_id request contract digest now existing_id

unfoldable pub start_attempt : Text → ℕ → Text → Time → Exec MemoryStore Text
unfolding record_for_update append_event object
start_attempt effect_id expected_version worker_id now = do
  effect ← record_for_update effect_id expected_version
  rows ← require (λ s. lookup effect_id s.attempts) (key_error effect_id)
  let ordinal = length rows + 1
  let attempt_id = attempt_id_of effect_id ordinal
  modify λ s. record s {
    attempts =
        insert effect_id
          (rows
            ++ record {
              attempt_id = attempt_id;
              effect_id = effect_id;
              ordinal = ordinal;
              worker_id = worker_id;
              version = expected_version;
              started_at = now;
            }
              ∷ [])
          s.attempts;
  }
  append_event effect_id attempt_started effect.version
      (object (
        (text "attempt_id", str attempt_id)
        ∷ (text "ordinal", int (pos ordinal))
        ∷ (text "worker_id", str worker_id)
        ∷ []))
      now
  pure attempt_id

-- A lease outlives a transition to a status that can be claimed.
unfoldable pub keeps_lease : EffectStatus → Bool
unfolding contains status_beq
keeps_lease target = contains target (prepared ∷ retryable ∷ [])

unfoldable pub transition :
    Text → ℕ → EffectStatus → JsonObject → Time → Exec MemoryStore EffectRecord
unfolding record_for_update append_event object updated_record keeps_lease
transition effect_id expected_version target metadata now = do
  before ← record_for_update effect_id expected_version
  lift (assert_transition before.status target)
  let after = updated_record before target now
  modify λ s. record s {
    records = insert effect_id after s.records;
    leases = if keeps_lease target then s.leases else erase effect_id s.leases;
  }
  append_event effect_id transitioned after.version
      (object (
        (text "from", str (status_value before.status))
        ∷ (text "to", str (status_value target))
        ∷ (text "metadata", mapping metadata)
        ∷ []))
      now
  pure after
