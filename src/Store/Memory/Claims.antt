-- ===== src/Store/Memory/Claims.antt =====
-- What `claim_due` of src/effect_broker/store/memory.py claims, and what it leaves alone.
use effect_broker.Prelude.{
  ◌≤◌, Text, text_eq, ◌≡◌, refl, ◌⊎◌, some, List, [], true, false, length, All, arith, Bool-cases,
  inl, inr,
}
use mathlib.Core.Path.{subst₂}
use mathlib.Core.List.{Memᴰ}
use effect_broker.Prelude.Int.{ℤ, pos, pos_part, leb_ℤ}
use effect_broker.Prelude.Dict.{lookup}
use effect_broker.Models.{EffectRecord, Time, Duration}
use effect_broker.Errors.{ok}
use effect_broker.Platform.{Platform}
use effect_broker.Store.Laws.{Apart}
use effect_broker.Store.Rows.{claimed_record}
use effect_broker.Store.Memory.State.{MemoryStore}
use effect_broker.Store.Memory.Claim.{is_due, is_full, claim_due}
use effect_broker.Store.Memory.Invariant.{IsValid}
use effect_broker.Store.Memory.ClaimOne.{Taken}
use effect_broker.Store.Memory.ClaimLoop.{claims}

module _ (p : Platform) (tenant_key : Text → Text) where
  -- The effects of a claim at `now` on the store `s`.
  pub record Claimed (worker_id : Text) (now : Time) (lease_for : Duration) (limit : ℤ)
      (s s' : MemoryStore) (batch : List EffectRecord) : Type 0 where
    pub valid : IsValid p tenant_key s'
    pub same_attempts : s'.attempts ≡ s.attempts
    pub apart : Apart batch
    pub bounded : length batch ≤ pos_part limit
    pub taken : All (Taken p worker_id now lease_for s.records s s') batch
    pub visited :
        (j : Text) (r : EffectRecord)
        → lookup j s.records ≡ some r
        → ((lookup j s'.records ≡ some r) × (lookup j s'.leases ≡ lookup j s.leases))
          ⊎ ((lookup j s'.records ≡ some (claimed_record r now))
              × (is_due now r.status (lookup j s.leases) ≡ true)
              × Memᴰ (claimed_record r now) batch)
    pub all_due :
        (j : Text) (r : EffectRecord)
        → lookup j s.records ≡ some r
        → is_due now r.status (lookup j s.leases) ≡ true
        → is_full limit batch ≡ false
        → lookup j s'.records ≡ some (claimed_record r now)

  module _ (worker_id : Text) (now : Time) (lease_for : Duration) (limit : ℤ) (s : MemoryStore)
      (v : IsValid p tenant_key s) where
    -- `claim_due` returns from every valid store. It claims at most `limit` effects; each was due
    -- and free and is stored with the next version under a lease of this worker; every effect that
    -- is not in the batch keeps its record and its lease; and unless the batch is full, everything
    -- that was due is claimed.
    pub claim_due_claims :
        (s' : MemoryStore) × (batch : List EffectRecord) × (claim_due p worker_id now lease_for
            limit s
          ≡ (ok batch, s'))
        × Claimed worker_id now lease_for limit s s' batch
    unfolding claim_due is_full
    claim_due_claims = elim (Bool-cases (leb_ℤ limit (pos 0))) [
      | inl nothing ↦ (
        s,
        [],
        rw nothing,
        record {
          valid = v;
          same_attempts = refl;
          bounded = omega arith;
          taken = tt;
          apart = tt;
          visited = λ j r h. inl (h, refl);
          all_due = λ j r h due room. cc;
        },
      )
      | inr some_room ↦
          let (s', batch, c) =
            claims p worker_id now lease_for tenant_key limit s.records [] s v v.distinct
              (λ j r h. h) in
          (
            s',
            batch,
            rw some_room c.returns,
            record {
              valid = c.valid;
              same_attempts = c.same_attempts;
              bounded = c.bounded (omega arith);
              taken = c.taken;
              apart = c.apart;
              visited = c.visited;
              all_due = c.all_due;
            },
          )
    ]

  -- The result of a claim is the one that `claim_due_claims` describes.
  pub claim_unique :
      (worker_id : Text) (now : Time) (lease_for : Duration) (limit : ℤ) (s s' : MemoryStore)
      (batch : List EffectRecord)
      → IsValid p tenant_key s
      → claim_due p worker_id now lease_for limit s ≡ (ok batch, s')
      → Claimed worker_id now lease_for limit s s' batch
  claim_unique worker_id now lease_for limit s s' batch v h =
      let (s1, b1, e, c) = claim_due_claims worker_id now lease_for limit s v in
      let store_eq : s1 ≡ s' = cc (e, h) in
      let batch_eq : b1 ≡ batch = cc (e, h) in
      subst₂ (λ x y. Claimed worker_id now lease_for limit s x y) store_eq batch_eq c
