-- ===== src/Store/Memory/Invariant.antt =====
-- The invariant of the in-memory store (src/effect_broker/store/memory.py).
use effect_broker.Prelude.{
  ℕ, ◌≤◌, Text, text_eq, pair_eq, ◌≡◌, refl, sym, ap, ◌∙◌, none, some, List, [], ◌∷◌, ◌++◌,
  if◌then◌else◌, ◌==◌, arith, Bool-cases, inl, inr,
}
use effect_broker.Prelude.Dict.{lookup, Distinct}
use effect_broker.Models.{EffectRecord, EffectRequest}
use effect_broker.Platform.{Platform}
use effect_broker.Canonical.{downstream_key}
use effect_broker.Store.Memory.State.{MemoryStore, MemoryEvent, Attempt, empty_store, effect_id_of}

module _ (p : Platform) (tenant_key : Text → Text) where
  -- The fields of a stored effect that never change are those that its place in the store says.
  pub record Matches (s : MemoryStore) (j : Text) (r : EffectRecord) : Type 0 where
    pub keyed : r.effect_id ≡ j
    pub indexed : lookup (r.tenant_id, r.request.operation_key) s.identity ≡ some j
    pub downstream :
        r.downstream_key
        ≡ downstream_key p (tenant_key r.tenant_id) r.tenant_id r.request.operation_key
    pub has_log : (log : List MemoryEvent) × (lookup j s.events ≡ some log)
    pub has_attempts : (rows : List Attempt) × (lookup j s.attempts ≡ some rows)

  -- Every record is where the identity index says, and nothing has an id that is still to be made.
  pub record IsValid (s : MemoryStore) : Type 0 where
    pub distinct : Distinct s.records
    pub matches : (j : Text) (r : EffectRecord) → lookup j s.records ≡ some r → Matches s j r
    pub named :
        (t k j : Text)
        → lookup (t, k) s.identity ≡ some j
        → (r : EffectRecord) × (lookup j s.records ≡ some r)
          × (r.tenant_id ≡ t)
          × (r.request.operation_key ≡ k)
    pub fresh : (n : ℕ) → s.next_effect_id ≤ n → lookup (effect_id_of n) s.records ≡ none

  pub empty-IsValid : IsValid empty_store
  unfolding empty_store lookup
  empty-IsValid = record {
    distinct = tt;
    matches = λ j r h. cc;
    named = λ t k j h. cc;
    fresh = λ n h. refl;
  }

-- `s'` is `s` with the effect `id` updated from `r` to `r'`, which has the same identity, and
-- with one more event in its history.
pub record Updates (s s' : MemoryStore) (id : Text) (r r' : EffectRecord) (e : MemoryEvent)
    : Type 0 where
  pub before : lookup id s.records ≡ some r
  pub same_id : r'.effect_id ≡ r.effect_id
  pub same_tenant : r'.tenant_id ≡ r.tenant_id
  pub same_request : r'.request ≡ r.request
  pub same_key : r'.downstream_key ≡ r.downstream_key
  pub same_identity : s'.identity ≡ s.identity
  pub same_next : s'.next_effect_id ≡ s.next_effect_id
  pub records_at :
      (j : Text) → lookup j s'.records ≡ (if id == j then some r' else lookup j s.records)
  pub distinct_kept : Distinct s.records → Distinct s'.records
  pub log : List MemoryEvent
  pub had_log : lookup id s.events ≡ some log
  pub events_at :
      (j : Text)
      → lookup j s'.events ≡ (if id == j then some (log ++ e ∷ []) else lookup j s.events)
  pub attempts_kept :
      (j : Text) (rows : List Attempt)
      → lookup j s.attempts ≡ some rows
      → (rows' : List Attempt) × (lookup j s'.attempts ≡ some rows')

module _ {s s' : MemoryStore} {id : Text} {r r' : EffectRecord} {e : MemoryEvent}
    (u : Updates s s' id r r' e) where
  -- A record after the update has the identity of the one before it.
  origin :
      (j : Text) (x : EffectRecord)
      → lookup j s'.records ≡ some x
      → (y : EffectRecord) × (lookup j s.records ≡ some y)
        × (x.effect_id ≡ y.effect_id)
        × (x.tenant_id ≡ y.tenant_id)
        × (x.request ≡ y.request)
        × (x.downstream_key ≡ y.downstream_key)
  origin j x h = elim (Bool-cases (id == j)) [
    | inl same ↦
        let moved : x ≡ r' = ground (arith, u.records_at j) in
        let there : id ≡ j = ground (arith, text_eq.beq_iff id j) in
        (
          r,
          rw (← there) u.before,
          ap (λ (z : EffectRecord). z.effect_id) moved ∙ u.same_id,
          ap (λ (z : EffectRecord). z.tenant_id) moved ∙ u.same_tenant,
          ap (λ (z : EffectRecord). z.request) moved ∙ u.same_request,
          ap (λ (z : EffectRecord). z.downstream_key) moved ∙ u.same_key,
        )
    | inr other ↦ (x, ground (arith, u.records_at j), refl, refl, refl, refl)
  ]

  log_after :
      (j : Text) (log : List MemoryEvent)
      → lookup j s.events ≡ some log
      → (log' : List MemoryEvent) × (lookup j s'.events ≡ some log')
  log_after j log h = elim (Bool-cases (id == j)) [
    | inl same ↦ (u.log ++ e ∷ [], rw (u.events_at j, same))
    | inr other ↦ (log, rw (u.events_at j, other) h)
  ]

module _ (p : Platform) (tenant_key : Text → Text) {s s' : MemoryStore} {id : Text}
    {r r' : EffectRecord} {e : MemoryEvent} (u : Updates s s' id r r' e)
    (v : IsValid p tenant_key s) where
  update-Matches :
      (j : Text) (x : EffectRecord) → lookup j s'.records ≡ some x → Matches p tenant_key s' j x
  update-Matches j x h =
      let (y, found, same_id, same_tenant, same_request, same_key) = origin u j x h in
      let m = v.matches j y found in
      let (log, has_log) = m.has_log in
      let (rows, has_rows) = m.has_attempts in
      record {
        keyed = same_id ∙ m.keyed;
        indexed = rw (u.same_identity, same_tenant, same_request) m.indexed;
        downstream = rw (same_key, same_tenant, same_request) m.downstream;
        has_log = log_after u j log has_log;
        has_attempts = u.attempts_kept j rows has_rows;
      }

  update-named :
      (t k j : Text)
      → lookup (t, k) s'.identity ≡ some j
      → (x : EffectRecord) × (lookup j s'.records ≡ some x)
        × (x.tenant_id ≡ t)
        × (x.request.operation_key ≡ k)
  update-named t k j h =
      let (y, found, tenant, key) = v.named t k j (rw u.same_identity at h) in
      elim (Bool-cases (id == j)) [
        | inl same ↦
            let there : id ≡ j = ground (arith, text_eq.beq_iff id j) in
            let origin_is : y ≡ r = ground (arith, u.before) in
            (
              r',
              rw (u.records_at j, same),
              u.same_tenant ∙ sym (ap (λ (z : EffectRecord). z.tenant_id) origin_is) ∙ tenant,
              ap (λ (q : EffectRequest). q.operation_key) u.same_request
                  ∙ sym (ap (λ (z : EffectRecord). z.request.operation_key) origin_is)
                  ∙ key,
            )
        | inr other ↦ (y, rw (u.records_at j, other) found, tenant, key)
      ]

  update-fresh : (n : ℕ) → s'.next_effect_id ≤ n → lookup (effect_id_of n) s'.records ≡ none
  update-fresh n h = ground (
    arith,
    u.records_at (effect_id_of n),
    text_eq.beq_iff id (effect_id_of n),
    v.fresh n (rw u.same_next at h),
    u.before,
  )

  -- An update of an effect keeps the invariant.
  pub update-IsValid : IsValid p tenant_key s'
  update-IsValid = record {
    distinct = u.distinct_kept v.distinct;
    matches = update-Matches;
    named = update-named;
    fresh = update-fresh;
  }
