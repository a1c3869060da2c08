-- ===== src/Store/Memory/ClaimLoop.antt =====
-- The loop of `claim_due` (src/effect_broker/store/memory.py).
use effect_broker.Prelude.{
  Text, text_eq, ◌≡◌, refl, none, some, List, [], ◌∷◌, ◌++◌, ==_refl, arith, Bool-cases, inl, inr,
}
use mathlib.Core.List.{append-nil}
use effect_broker.Prelude.Int.{ℤ}
use effect_broker.Prelude.Dict.{Dict, lookup, lookup-insert, Distinct}
use effect_broker.Models.{EffectRecord, Time, Duration}
use effect_broker.Platform.{Platform}
use effect_broker.Store.Rows.{claimed_record}
use effect_broker.Store.Memory.State.{MemoryStore, MemoryEvent}
use effect_broker.Store.Memory.Claim.{is_due, is_full, claim_loop}
use effect_broker.Store.Memory.Invariant.{IsValid, update-IsValid}
use effect_broker.Store.Memory.ClaimOne.{claimed_store, claim_one-Updates}
use effect_broker.Store.Memory.ClaimRound.{Claims, skip-Claims, take-Claims}

module _ (p : Platform) (worker_id : Text) (now : Time) (lease_for : Duration) where
  module _ (tenant_key : Text → Text) (limit : ℤ) where
    -- What the loop has still to visit is in the store.
    abbrev Ahead : Dict Text EffectRecord → MemoryStore → Type 0
    Ahead items s =
        (j : Text) (r : EffectRecord) → lookup j items ≡ some r → lookup j s.records ≡ some r

    none_found : (j : Text) (x : EffectRecord) → lookup j [] ≡ some x → ⊥
    unfolding lookup
    none_found j x h = cc

    found_later :
        (id : Text) (r : EffectRecord) (items : Dict Text EffectRecord)
        → lookup id items ≡ none
        → (j : Text) (x : EffectRecord) → lookup j items ≡ some x
        → lookup j ((id, r) ∷ items) ≡ some x
    unfolding lookup
    found_later id r items later j x h = ground (arith, text_eq.beq_iff id j)

    Ahead-kept :
        (id : Text) (r : EffectRecord) (items : Dict Text EffectRecord) (s : MemoryStore)
        (log : List MemoryEvent)
        → lookup id items ≡ none
        → Ahead items s
        → Ahead items (claimed_store p worker_id now lease_for s id r log)
    Ahead-kept id r items s log later a j x h =
        ground (
          arith,
          a j x h,
          text_eq.beq_iff id j,
          lookup-insert id j (claimed_record r now) s.records,
        )

    -- The loop returns, and what it has done is described by `Claims`.
    pub claims :
        (items : Dict Text EffectRecord) (batch : List EffectRecord) (s : MemoryStore)
        → IsValid p tenant_key s
        → Distinct items
        → Ahead items s
        → (s' : MemoryStore) × (more : List EffectRecord) × Claims p worker_id now lease_for
            tenant_key limit items batch s s' more
    claims [] batch s v d a = (
      s,
      [],
      record {
        returns = unfold claim_loop in rw append-nil;
        valid = v;
        frame = λ j h. (refl, refl);
        visited = λ j x h. absurd (none_found j x h);
        all_due = λ j x h. absurd (none_found j x h);
        same_attempts = refl;
        bounded = λ h. rw append-nil h;
        taken = tt;
        apart = tt;
      },
    )
    claims ((id, r) ∷ items) batch s v d a =
        let ahead : Ahead items s = λ j x h. a j x (found_later id r items d.0 j x h) in
        let there : lookup id s.records ≡ some r = a id r (unfold lookup in rw ==_refl) in
        let skipped = claims items batch s v d.1 ahead in
        let m = v.matches id r there in
        let (log, has_log) = m.has_log in
        let u = claim_one-Updates p worker_id now lease_for s id r log there has_log in
        let took =
          claims items (batch ++ claimed_record r now ∷ [])
            (claimed_store p worker_id now lease_for s id r log) (update-IsValid p tenant_key u v)
            d.1 (Ahead-kept id r items s log d.0 ahead) in
        elim (Bool-cases (is_full limit batch)) [
          | inl full ↦ (
            skipped.0,
            skipped.1,
            skip-Claims p worker_id now lease_for tenant_key limit id r items d.0 batch s skipped.0
                skipped.1 (inl full) there skipped.2,
          )
          | inr room ↦ elim (Bool-cases (is_due now r.status (lookup id s.leases))) [
            | inl due ↦ (
              took.0,
              claimed_record r now ∷ took.1,
              take-Claims p worker_id now lease_for tenant_key limit id r items d.0 batch s log
                  took.0 took.1 room due has_log took.2,
            )
            | inr idle ↦ (
              skipped.0,
              skipped.1,
              skip-Claims p worker_id now lease_for tenant_key limit id r items d.0 batch s
                  skipped.0 skipped.1 (inr (room, idle)) there skipped.2,
            )
          ]
        ]
