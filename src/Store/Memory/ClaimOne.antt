-- ===== src/Store/Memory/ClaimOne.antt =====
-- One claim in `claim_due` (src/effect_broker/store/memory.py).
use effect_broker.Prelude.{
  ◌+◌, Text, text, text_eq, ◌≡◌, refl, some, List, [], ◌∷◌, ◌++◌, true, length, arith,
}
use effect_broker.Prelude.Int.{◌+ℤ◌}
use effect_broker.Prelude.Dict.{Dict, lookup, insert, lookup-insert, Distinct-insert}
use effect_broker.Json.{str}
use effect_broker.Models.{EffectRecord, Time, Duration}
use effect_broker.Errors.{ok}
use effect_broker.Platform.{Platform}
use effect_broker.Store.Rows.{object, claimed_record}
use effect_broker.Store.Memory.State.{MemoryStore, MemoryEvent, Lease, claimed}
use effect_broker.Store.Memory.Claim.{is_due, claim_one}
use effect_broker.Store.Memory.Invariant.{Updates}

module _ (p : Platform) (worker_id : Text) (now : Time) (lease_for : Duration) where
  -- The lease that a claim takes.
  abbrev pub new_lease : Lease
  new_lease = record { worker_id = worker_id; expires_at = now +ℤ lease_for }

  abbrev pub claim_event : Text → List MemoryEvent → EffectRecord → MemoryEvent
  claim_event id log r = record {
    effect_id = id;
    sequence = length log + 1;
    event_type = claimed;
    version = r.version + 1;
    at = now;
    payload = object (
        (text "worker_id", str worker_id)
        ∷ (text "lease_expires_at", str (p.isoformat (now +ℤ lease_for)))
        ∷ []);
  }

  abbrev pub claimed_store : MemoryStore → Text → EffectRecord → List MemoryEvent → MemoryStore
  claimed_store s id r log = record s {
    records = insert id (claimed_record r now) s.records;
    leases = insert id new_lease s.leases;
    events = insert id (log ++ claim_event id log r ∷ []) s.events;
  }

  pub claim_one_runs :
      (s : MemoryStore) (id : Text) (r : EffectRecord) (log : List MemoryEvent)
      (batch : List EffectRecord)
      → lookup id s.events ≡ some log
      → claim_one p worker_id now lease_for id r batch s
        ≡ (ok (batch ++ claimed_record r now ∷ []), claimed_store s id r log)
  unfolding claim_one
  claim_one_runs s id r log batch h = ground arith

  pub claim_one-Updates :
      (s : MemoryStore) (id : Text) (r : EffectRecord) (log : List MemoryEvent)
      → lookup id s.records ≡ some r
      → lookup id s.events ≡ some log
      → Updates s (claimed_store s id r log) id r (claimed_record r now) (claim_event id log r)
  unfolding claimed_record
  claim_one-Updates s id r log h hl = record {
    before = h;
    same_id = refl;
    same_tenant = refl;
    same_request = refl;
    same_key = refl;
    same_identity = refl;
    same_next = refl;
    records_at = λ j. lookup-insert id j _ s.records;
    distinct_kept = λ d. Distinct-insert id _ s.records d;
    log = log;
    had_log = hl;
    events_at = λ j. lookup-insert id j _ s.events;
    attempts_kept = λ j rows hr. (rows, hr);
  }

  -- An effect of `items` that was due at `s` and is claimed in `s'`, with its lease.
  abbrev pub Taken : Dict Text EffectRecord → MemoryStore → MemoryStore → EffectRecord → Type 0
  Taken items s s' x =
      (j : Text) × (r : EffectRecord) × (lookup j items ≡ some r)
      × (is_due now r.status (lookup j s.leases) ≡ true)
      × (x ≡ claimed_record r now)
      × (lookup j s'.records ≡ some x)
      × (lookup j s'.leases ≡ some new_lease)
