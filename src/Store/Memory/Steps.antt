-- ===== src/Store/Memory/Steps.antt =====
-- Each method of src/effect_broker/store/memory.py that changes one effect, on every branch.
use effect_broker.Prelude.{
  ℕ, ◌+◌, Text, text, text_eq, ◌≡◌, ◌≢◌, refl, none, some, List, [], ◌∷◌, ◌++◌, true, false, length,
  if◌then◌else◌, ◌==◌, arith, Bool-cases, inl, inr,
}
use effect_broker.Prelude.Dict.{lookup, insert, erase, lookup-insert, Distinct-insert}
use effect_broker.Prelude.Int.{pos}
use effect_broker.Json.{JsonObject, str, int, mapping}
use effect_broker.Models.{EffectRecord, EffectStatus, status_value, Time}
use effect_broker.Errors.{ok, err, unknown_effect, version_conflict, invalid_transition}
use effect_broker.StateMachine.{is_allowed, assert_transition}
use effect_broker.Store.Rows.{updated_record, attempt_id_of, object}
use effect_broker.Store.Memory.State.{
  MemoryStore, MemoryEvent, Attempt, transition, start_attempt, transitioned, attempt_started,
  keeps_lease,
}
use effect_broker.Store.Memory.Invariant.{Updates}

-- The event that a transition appends to a history.
abbrev pub transition_event :
    Text → List MemoryEvent → EffectRecord → EffectStatus → JsonObject → Time → MemoryEvent
transition_event id log r target metadata now = record {
  effect_id = id;
  sequence = length log + 1;
  event_type = transitioned;
  version = r.version + 1;
  at = now;
  payload = object (
      (text "from", str (status_value r.status))
      ∷ (text "to", str (status_value target))
      ∷ (text "metadata", mapping metadata)
      ∷ []);
}

module _ (id : Text) (v : ℕ) (target : EffectStatus) (metadata : JsonObject) (now : Time)
    (s : MemoryStore) where
  pub transition_missing :
      lookup id s.records ≡ none
      → transition id v target metadata now s ≡ (err (unknown_effect id), s)
  unfolding transition
  transition_missing h = ground arith

  pub transition_stale :
      (r : EffectRecord)
      → lookup id s.records ≡ some r
      → r.version ≢ v
      → transition id v target metadata now s ≡ (err (version_conflict id v r.version), s)
  unfolding transition
  transition_stale r h ne = ground arith

  pub transition_forbidden :
      (r : EffectRecord)
      → lookup id s.records ≡ some r
      → r.version ≡ v
      → is_allowed r.status target ≡ false
      → transition id v target metadata now s ≡ (err (invalid_transition r.status target), s)
  unfolding transition assert_transition
  transition_forbidden r h e no_edge = ground arith

  abbrev pub moved_store : EffectRecord → List MemoryEvent → MemoryStore
  moved_store r log = record s {
    records = insert id (updated_record r target now) s.records;
    leases = if keeps_lease target then s.leases else erase id s.leases;
    events = insert id (log ++ transition_event id log r target metadata now ∷ []) s.events;
  }

  pub transition_runs :
      (r : EffectRecord) (log : List MemoryEvent)
      → lookup id s.records ≡ some r
      → lookup id s.events ≡ some log
      → r.version ≡ v
      → is_allowed r.status target ≡ true
      → transition id v target metadata now s
        ≡ (ok (updated_record r target now), moved_store r log)
  unfolding transition assert_transition
  transition_runs r log h hl e edge = ground arith

  -- What the transition does to the store, as an update of one effect.
  pub transition-Updates :
      (r : EffectRecord) (log : List MemoryEvent)
      → lookup id s.records ≡ some r
      → lookup id s.events ≡ some log
      → Updates s
          (moved_store r log)
          id
          r
          (updated_record r target now)
          (transition_event id log r target metadata now)
  unfolding updated_record
  transition-Updates r log h hl = record {
    before = h;
    same_id = refl;
    same_tenant = refl;
    same_request = refl;
    same_key = refl;
    same_identity = refl;
    same_next = refl;
    records_at = λ j. lookup-insert id j _ s.records;
    distinct_kept = λ d. Distinct-insert id _ s.records d;
    log = log;
    had_log = hl;
    events_at = λ j. lookup-insert id j _ s.events;
    attempts_kept = λ j rows hr. (rows, hr);
  }

-- The event that the start of an attempt appends.
abbrev pub attempt_event : Text → List MemoryEvent → EffectRecord → ℕ → Text → Time → MemoryEvent
attempt_event id log r ordinal worker_id now = record {
  effect_id = id;
  sequence = length log + 1;
  event_type = attempt_started;
  version = r.version;
  at = now;
  payload = object (
      (text "attempt_id", str (attempt_id_of id ordinal))
      ∷ (text "ordinal", int (pos ordinal))
      ∷ (text "worker_id", str worker_id)
      ∷ []);
}

module _ (id : Text) (v : ℕ) (worker_id : Text) (now : Time) (s : MemoryStore) where
  pub start_attempt_missing :
      lookup id s.records ≡ none → start_attempt id v worker_id now s ≡ (err (unknown_effect id), s)
  unfolding start_attempt
  start_attempt_missing h = ground arith

  pub start_attempt_stale :
      (r : EffectRecord)
      → lookup id s.records ≡ some r
      → r.version ≢ v
      → start_attempt id v worker_id now s ≡ (err (version_conflict id v r.version), s)
  unfolding start_attempt
  start_attempt_stale r h ne = ground arith

  abbrev pub attempt_row : List Attempt → Attempt
  attempt_row rows = record {
    attempt_id = attempt_id_of id (length rows + 1);
    effect_id = id;
    ordinal = length rows + 1;
    worker_id = worker_id;
    version = v;
    started_at = now;
  }

  abbrev pub attempted_store : EffectRecord → List MemoryEvent → List Attempt → MemoryStore
  attempted_store r log rows = record s {
    attempts = insert id (rows ++ attempt_row rows ∷ []) s.attempts;
    events =
        insert id (log ++ attempt_event id log r (length rows + 1) worker_id now ∷ []) s.events;
  }

  pub start_attempt_runs :
      (r : EffectRecord) (log : List MemoryEvent) (rows : List Attempt)
      → lookup id s.records ≡ some r
      → lookup id s.events ≡ some log
      → lookup id s.attempts ≡ some rows
      → r.version ≡ v
      → start_attempt id v worker_id now s
        ≡ (ok (attempt_id_of id (length rows + 1)), attempted_store r log rows)
  unfolding start_attempt
  start_attempt_runs r log rows h hl ha e = ground arith

  pub start_attempt-Updates :
      (r : EffectRecord) (log : List MemoryEvent) (rows : List Attempt)
      → lookup id s.records ≡ some r
      → lookup id s.events ≡ some log
      → Updates s
          (attempted_store r log rows)
          id
          r
          r
          (attempt_event id log r (length rows + 1) worker_id now)
  start_attempt-Updates r log rows h hl = record {
    before = h;
    same_id = refl;
    same_tenant = refl;
    same_request = refl;
    same_key = refl;
    same_identity = refl;
    same_next = refl;
    records_at = λ j. ground (arith, text_eq.beq_iff id j);
    distinct_kept = λ d. d;
    log = log;
    had_log = hl;
    events_at = λ j. lookup-insert id j _ s.events;
    attempts_kept = λ j old ho. attempts_after j old ho;
  }
    where
      attempts_after :
          (j : Text) (old : List Attempt)
          → lookup j s.attempts ≡ some old
          → (rows' : List Attempt) × (lookup j
                (insert id (rows ++ attempt_row rows ∷ []) s.attempts)
              ≡ some rows')
      attempts_after j old ho = elim (Bool-cases (id == j)) [
        | inl same ↦ (rows ++ attempt_row rows ∷ [], rw (lookup-insert, same))
        | inr other ↦ (old, rw (lookup-insert, other) ho)
      ]
