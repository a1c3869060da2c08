-- ===== src/Store/Memory/Reservation.antt =====
-- `reserve` of src/effect_broker/store/memory.py, on every branch: one effect for each tenant and
-- operation key.
use effect_broker.Prelude.{
  ℕ, ◌+◌, ◌≤◌, Text, text, text_eq, pair_eq, ◌≡◌, ◌≢◌, refl, ap, none, some, List, [], ◌∷◌, true,
  false, ◌==◌, ==_refl, ==_ne, arith, Bool-cases, inl, inr,
}
use effect_broker.Prelude.Dict.{lookup, insert, lookup-insert, Distinct-insert}
use effect_broker.Json.{str}
use effect_broker.Models.{EffectRecord, EffectRequest, EffectContract, prepared, status_value, Time}
use effect_broker.Errors.{Result, ok, err, Error, payload_conflict}
use effect_broker.Platform.{Platform}
use effect_broker.Canonical.{request_hash}
use effect_broker.Store.Rows.{object}
use effect_broker.Store.Memory.State.{
  MemoryStore, MemoryEvent, reserved, reserve, reserve_new, reserve_replay, new_record,
  effect_id_of,
}
use effect_broker.Store.Memory.Ids.{effect_id_of_injective}
use effect_broker.Store.Memory.Invariant.{IsValid, Matches}

-- The fingerprint of a request under a contract.
abbrev pub digest_of : Platform → EffectRequest → EffectContract → Result Text
digest_of p request contract =
    request_hash p request.tool request.arguments contract.name contract.version

module _ (p : Platform) (tenant_key : Text → Text) where
  module _ (t : Text) (request : EffectRequest) (contract : EffectContract) (now : Time)
      (s : MemoryStore) where
    -- The record that a fresh reservation creates, and the store with it.
    abbrev pub fresh_record : Text → EffectRecord
    fresh_record digest =
        new_record p tenant_key t request contract digest now (effect_id_of s.next_effect_id)

    abbrev pub fresh_store : Text → MemoryStore
    fresh_store digest = record s {
      next_effect_id = s.next_effect_id + 1;
      identity = insert (t, request.operation_key) (effect_id_of s.next_effect_id) s.identity;
      records = insert (effect_id_of s.next_effect_id) (fresh_record digest) s.records;
      attempts = insert (effect_id_of s.next_effect_id) [] s.attempts;
      events =
          insert (effect_id_of s.next_effect_id)
            (record {
              effect_id = effect_id_of s.next_effect_id;
              sequence = 1;
              event_type = reserved;
              version = 0;
              at = now;
              payload = object ((text "status", str (status_value prepared)) ∷ []);
            }
              ∷ [])
            (insert (effect_id_of s.next_effect_id) [] s.events);
    }

    pub reserve_rejects :
        (e : Error)
        → digest_of p request contract ≡ err e
        → reserve p tenant_key t request contract now s ≡ (err e, s)
    unfolding reserve
    reserve_rejects e h = ground arith

    pub reserve_creates :
        (digest : Text)
        → digest_of p request contract ≡ ok digest
        → lookup (t, request.operation_key) s.identity ≡ none
        → reserve p tenant_key t request contract now s ≡ (
          ok (record { effect = fresh_record digest; created = true; replayed = false }),
          fresh_store digest,
        )
    unfolding reserve reserve_new new_record
    reserve_creates digest h new = ground (
      arith,
      lookup-insert (effect_id_of s.next_effect_id) (effect_id_of s.next_effect_id) [] s.events,
      ==_refl (effect_id_of s.next_effect_id),
    )

    module _ (id digest : Text) (r : EffectRecord)
        (hashed : digest_of p request contract ≡ ok digest)
        (known : lookup (t, request.operation_key) s.identity ≡ some id)
        (found : lookup id s.records ≡ some r) where
      pub reserve_replays :
          r.request_hash ≡ digest
          → reserve p tenant_key t request contract now s
            ≡ (ok (record { effect = r; created = false; replayed = true }), s)
      unfolding reserve reserve_replay
      reserve_replays same = ground (arith, text_eq.beq_iff r.request_hash digest)

      pub reserve_conflicts :
          r.request_hash ≢ digest
          → reserve p tenant_key t request contract now s
            ≡ (err (payload_conflict request.operation_key r.request_hash digest), s)
      unfolding reserve reserve_replay
      reserve_conflicts other = ground (arith, text_eq.beq_iff r.request_hash digest)

  module _ (t : Text) (request : EffectRequest) (contract : EffectContract) (now : Time)
      (s : MemoryStore) (digest : Text) (v : IsValid p tenant_key s)
      (new : lookup (t, request.operation_key) s.identity ≡ none) where
    abbrev next_id : Text
    next_id = effect_id_of s.next_effect_id

    abbrev after : MemoryStore
    after = fresh_store t request contract now s digest

    unused : lookup next_id s.records ≡ none
    unused = v.fresh s.next_effect_id (omega arith)

    abbrev identity : Text × Text
    identity = (t, request.operation_key)

    -- An identity that was known before is not the new one.
    other_indexed :
        (q : Text × Text) (j : Text)
        → lookup q s.identity ≡ some j
        → lookup q after.identity ≡ some j
    other_indexed q j h = rw (lookup-insert, ==_ne identity q (λ e. cc new)) h

    abbrev first_log : List MemoryEvent
    first_log =
        record {
          effect_id = next_id;
          sequence = 1;
          event_type = reserved;
          version = 0;
          at = now;
          payload = object ((text "status", str (status_value prepared)) ∷ []);
        }
        ∷ []

    log_found : (j : Text) → (next_id == j) ≡ true → lookup j after.events ≡ some first_log
    log_found j same = rw (lookup-insert, same)

    fresh-Matches :
        (j : Text) (x : EffectRecord)
        → lookup j after.records ≡ some x
        → Matches p tenant_key after j x
    unfolding new_record
    fresh-Matches j x h = elim (Bool-cases (next_id == j)) [
      | inl same ↦
          let there : next_id ≡ j = ground (arith, text_eq.beq_iff next_id j) in
          let is_new : x ≡ fresh_record t request contract now s digest = ground (
            arith,
            lookup-insert next_id j (fresh_record t request contract now s digest) s.records,
          ) in
          rw is_new (record {
            keyed = there;
            indexed = rw (lookup-insert, ==_refl) (ap some there);
            downstream = refl;
            has_log = (first_log, log_found j same);
            has_attempts = ([], rw (lookup-insert, same));
          })
      | inr other ↦
          let found : lookup j s.records ≡ some x = ground (
            arith,
            lookup-insert next_id j (fresh_record t request contract now s digest) s.records,
          ) in
          let m = v.matches j x found in
          record {
            keyed = m.keyed;
            indexed = other_indexed (x.tenant_id, x.request.operation_key) j m.indexed;
            downstream = m.downstream;
            has_log = (m.has_log.0, rw (lookup-insert, other, lookup-insert, other) m.has_log.1);
            has_attempts = (m.has_attempts.0, rw (lookup-insert, other) m.has_attempts.1);
          }
    ]

    fresh-named :
        (u k j : Text)
        → lookup (u, k) after.identity ≡ some j
        → (x : EffectRecord) × (lookup j after.records ≡ some x)
          × (x.tenant_id ≡ u)
          × (x.request.operation_key ≡ k)
    unfolding new_record
    fresh-named u k j h = elim (Bool-cases (identity == (u, k))) [
      | inl same ↦
          let there : next_id ≡ j =
            ground (arith, same, lookup-insert identity (u, k) next_id s.identity) in
          let e : (t, request.operation_key) ≡ (u, k) =
            (pair_eq.beq_iff (t, request.operation_key) (u, k)).0 same in
          (
            fresh_record t request contract now s digest,
            rw (lookup-insert, there, ==_refl j),
            ap (λ (q : Text × Text). q.0) e,
            ap (λ (q : Text × Text). q.1) e,
          )
      | inr other ↦
          let known : lookup (u, k) s.identity ≡ some j =
            ground (arith, other, lookup-insert identity (u, k) next_id s.identity) in
          let (r, found, tenant, key) = v.named u k j known in
          (
            r,
            ground (
              arith,
              found,
              unused,
              lookup-insert next_id j (fresh_record t request contract now s digest) s.records,
              text_eq.beq_iff next_id j,
            ),
            tenant,
            key,
          )
    ]

    fresh-fresh : (n : ℕ) → after.next_effect_id ≤ n → lookup (effect_id_of n) after.records ≡ none
    fresh-fresh n h = ground (
      arith,
      lookup-insert next_id (effect_id_of n) (fresh_record t request contract now s digest)
          s.records,
      text_eq.beq_iff next_id (effect_id_of n),
      effect_id_of_injective s.next_effect_id n,
      v.fresh n,
    )

    -- What was stored before stays where it was.
    pub fresh-keeps :
        (j : Text) (r : EffectRecord)
        → lookup j s.records ≡ some r
        → lookup j after.records ≡ some r
    fresh-keeps j r h = ground (
      arith,
      h,
      unused,
      lookup-insert next_id j (fresh_record t request contract now s digest) s.records,
      text_eq.beq_iff next_id j,
    )

    -- A fresh reservation keeps the invariant.
    pub fresh-IsValid : IsValid p tenant_key after
    fresh-IsValid = record {
      distinct = Distinct-insert next_id _ s.records v.distinct;
      matches = fresh-Matches;
      named = fresh-named;
      fresh = fresh-fresh;
    }
