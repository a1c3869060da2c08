-- ===== src/Store/Memory/Conforms.antt =====
-- `InMemoryStore` (src/effect_broker/store/memory.py) keeps the laws of a store.
use effect_broker.Prelude.{
  ℕ, ◌+◌, Text, text_eq, ◌≡◌, ◌⊎◌, refl, inl, inr, Option, some, List, [], ◌∷◌, ◌++◌, length,
  length-append, true, All, All-map, if◌then◌else◌, ◌==◌, arith,
}
use effect_broker.Prelude.Int.{ℤ}
use effect_broker.Prelude.Dict.{lookup, insert, lookup-insert}
use effect_broker.Json.{JsonObject}
use effect_broker.StateMachine.{is_allowed}
use effect_broker.Models.{EffectRecord, EffectStatus, Time, Duration}
use effect_broker.Errors.{ok}
use effect_broker.Platform.{Platform}
use effect_broker.Store.Interface.{EffectStore}
use effect_broker.Store.Laws.{Apart, StoreView, StoreLaws, Claimable}
use effect_broker.Store.Rows.{claimed_record, updated_record, attempt_id_of}
use effect_broker.Store.Memory.State.{
  MemoryStore, Lease, Attempt, reserve, start_attempt, transition,
}
use effect_broker.Store.Memory.Claim.{claim_due, is_due}
use effect_broker.Store.Memory.Reads.{get, list, receipt, attempt_count, or_empty}
use effect_broker.Store.Memory.Invariant.{IsValid, update-IsValid}
use effect_broker.Store.Memory.Steps.{
  transition_missing, transition_stale, transition_forbidden, transition_runs, transition-Updates,
  moved_store, start_attempt_stale, start_attempt_runs, start_attempt-Updates, attempted_store,
  attempt_row,
}
use effect_broker.Store.Memory.ClaimOne.{Taken}
use effect_broker.Store.Memory.Claims.{Claimed, claim_due_claims}

module _ (p : Platform) (tenant_key : Text → Text) where
  -- The store as the interface sees it.
  unfoldable pub memory_store : EffectStore MemoryStore
  memory_store = record {
    reserve = reserve p tenant_key;
    claim_due = claim_due p;
    start_attempt = start_attempt;
    transition = transition;
    get = get;
    list = list;
    receipt = receipt p;
  }

due-Claimable :
    (now : Time) (status : EffectStatus) (lease : Option Lease)
    → is_due now status lease ≡ true
    → Claimable status
unfolding is_due
due-Claimable now status lease h = ground arith

module _ (p : Platform) (tenant_key : Text → Text) where
  transition_allowed :
      (id : Text) (v : ℕ) (target : EffectStatus) (metadata : JsonObject) (now : Time)
      (s : MemoryStore) (r : EffectRecord)
      → IsValid p tenant_key s
      → lookup id s.records ≡ some r
      → r.version ≡ v
      → is_allowed r.status target ≡ true
      → (s' : MemoryStore) × (transition id v target metadata now s
          ≡ (ok (updated_record r target now), s'))
        × IsValid p tenant_key s'
        × ((j : Text)
            → lookup j s'.records
              ≡ (if id == j then some (updated_record r target now) else lookup j s.records))
        × ((j : Text) → attempt_count j s' ≡ attempt_count j s)
  unfolding attempt_count
  transition_allowed id v target metadata now s r valid found current edge =
      let (log, has_log) = (valid.matches id r found).has_log in
      let u = transition-Updates id v target metadata now s r log found has_log in
      (
        moved_store id v target metadata now s r log,
        transition_runs id v target metadata now s r log found has_log current edge,
        update-IsValid p tenant_key u valid,
        u.records_at,
        λ j. refl,
      )

  attempts_after :
      (id j : Text) (s s' : MemoryStore) (rows : List Attempt) (row : Attempt)
      → lookup id s.attempts ≡ some rows
      → s'.attempts ≡ insert id (rows ++ row ∷ []) s.attempts
      → attempt_count j s' ≡ (if id == j then attempt_count id s + 1 else attempt_count j s)
  unfolding attempt_count or_empty
  attempts_after id j s s' rows row has_rows e = rw e (
      ground (
        arith,
        has_rows,
        lookup-insert id j (rows ++ row ∷ []) s.attempts,
        length-append rows (row ∷ []),
      ))

  count_of_rows :
      (id : Text) (s : MemoryStore) (rows : List Attempt)
      → lookup id s.attempts ≡ some rows
      → attempt_count id s ≡ length rows
  unfolding attempt_count or_empty
  count_of_rows id s rows h = ground (arith, h)

  start_allowed :
      (id : Text) (v : ℕ) (worker : Text) (now : Time) (s : MemoryStore) (r : EffectRecord)
      → IsValid p tenant_key s
      → lookup id s.records ≡ some r
      → r.version ≡ v
      → (s' : MemoryStore) × (start_attempt id v worker now s
          ≡ (ok (attempt_id_of id (attempt_count id s + 1)), s'))
        × IsValid p tenant_key s'
        × ((j : Text) → lookup j s'.records ≡ lookup j s.records)
        × ((j : Text)
            → attempt_count j s' ≡ (if id == j then attempt_count id s + 1 else attempt_count j s))
  start_allowed id v worker now s r valid found current =
      let m = valid.matches id r found in
      let (log, has_log) = m.has_log in
      let (rows, has_rows) = m.has_attempts in
      let s' = attempted_store id v worker now s r log rows in
      (
        s',
        rw (count_of_rows id s rows has_rows)
            (start_attempt_runs id v worker now s r log rows found has_log has_rows current),
        update-IsValid p tenant_key
            (start_attempt-Updates id v worker now s r log rows found has_log) valid,
        λ j. refl,
        λ j. attempts_after id j s s' rows (attempt_row id v worker now s rows) has_rows refl,
      )

  claim_lem :
      (worker : Text) (now : Time) (lease_for : Duration) (limit : ℤ) (s : MemoryStore)
      → IsValid p tenant_key s
      → (s' : MemoryStore) × (batch : List EffectRecord) × (claim_due p worker now lease_for limit s
          ≡ (ok batch, s'))
        × IsValid p tenant_key s'
        × ((j : Text) (r : EffectRecord)
            → lookup j s.records ≡ some r
            → (lookup j s'.records ≡ some r)
              ⊎ ((lookup j s'.records ≡ some (claimed_record r now)) × Claimable r.status))
        × ((j : Text) → attempt_count j s' ≡ attempt_count j s)
        × All
            (λ x.
              (r : EffectRecord) × (lookup x.effect_id s.records ≡ some r)
              × Claimable r.status
              × (x ≡ claimed_record r now)
              × (lookup x.effect_id s'.records ≡ some x))
            batch
        × Apart batch
  unfolding attempt_count
  claim_lem worker now lease_for limit s valid =
      let (s', batch, e, c) = claim_due_claims p tenant_key worker now lease_for limit s valid in
      (
        s',
        batch,
        e,
        c.valid,
        λ j r h. visited s' batch c j r h,
        λ j. rw c.same_attempts,
        All-map _ _ batch (λ x t. taken s' batch c x t) c.taken,
        c.apart,
      )
    where
      visited :
          (s' : MemoryStore) (batch : List EffectRecord)
          → Claimed p tenant_key worker now lease_for limit s s' batch
          → (j : Text) (r : EffectRecord) → lookup j s.records ≡ some r
          → (lookup j s'.records ≡ some r)
            ⊎ ((lookup j s'.records ≡ some (claimed_record r now)) × Claimable r.status)
      visited s' batch c j r h = elim (c.visited j r h) [
        | inl kept ↦ inl kept.0
        | inr moved ↦ inr (moved.0, due-Claimable now r.status (lookup j s.leases) moved.1)
      ]

      taken :
          (s' : MemoryStore) (batch : List EffectRecord)
          → Claimed p tenant_key worker now lease_for limit s s' batch
          → (x : EffectRecord) → Taken p worker now lease_for s.records s s' x
          → (r : EffectRecord) × (lookup x.effect_id s.records ≡ some r)
            × Claimable r.status
            × (x ≡ claimed_record r now)
            × (lookup x.effect_id s'.records ≡ some x)
      taken s' batch c x (j, r, found, due, e, stored, _) =
          let at_j : x.effect_id ≡ j = (c.valid.matches j x stored).keyed in
          (
            r,
            rw at_j found,
            due-Claimable now r.status (lookup j s.leases) due,
            e,
            simp at_j stored,
          )

  -- What the laws say of a state of the in-memory store.
  abbrev pub memory_view : StoreView MemoryStore
  memory_view = record {
    Valid = IsValid p tenant_key;
    find = λ id s. lookup id s.records;
    attempts = attempt_count;
  }

  -- The in-memory store keeps the laws that the worker, the reconciler and the broker rely on:
  -- every transition and every attempt is a compare-and-swap on the version that reaches exactly
  -- one effect, and a claim takes only current effects that can be claimed.
  pub memory-StoreLaws : StoreLaws (memory_store p tenant_key) memory_view
  unfolding memory_store get
  memory-StoreLaws = record {
    get_lem = λ t id s. refl;
    transition_missing = transition_missing;
    transition_stale = transition_stale;
    transition_forbidden = transition_forbidden;
    transition_allowed = transition_allowed;
    start_stale = start_attempt_stale;
    start_allowed = start_allowed;
    find_keyed = λ id s r v h. (v.matches id r h).keyed;
    claim_lem = claim_lem;
  }
