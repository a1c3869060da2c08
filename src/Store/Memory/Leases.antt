-- ===== src/Store/Memory/Leases.antt =====
-- How long the lease of a claim lasts (src/effect_broker/store/memory.py).
use effect_broker.Prelude.{
  ℕ, Text, text_eq, pair_eq, ◌≡◌, ◌≢◌, ◌⊎◌, ap, sym, subst, ◌∙◌, some, List, [], ◌∷◌, true, false,
  All, All-map, arith, Option-cases, inl, inr,
}
use mathlib.Core.List.{Memᴰ}
use effect_broker.Prelude.Int.{ℤ, ◌+ℤ◌, ltb_ℤ}
use effect_broker.Prelude.Dict.{lookup, lookup-erase}
use effect_broker.Json.{JsonObject}
use effect_broker.Models.{EffectRecord, EffectRequest, EffectContract, EffectStatus, Time, Duration}
use effect_broker.Errors.{Result-cases, ok}
use effect_broker.Platform.{Platform}
use effect_broker.Canonical.{request_hash}
use effect_broker.Store.Rows.{claimed_record}
use effect_broker.Store.Memory.State.{
  MemoryStore, Lease, reserve, start_attempt, transition, keeps_lease, reserve_new, reserve_replay,
}
use effect_broker.Store.Memory.Claim.{is_free, is_due, claim_due}
use effect_broker.Store.Memory.Invariant.{IsValid}
use effect_broker.Store.Memory.ClaimOne.{Taken, new_lease}
use effect_broker.Store.Memory.Claims.{claim_due_claims, claim_unique}
use effect_broker.Store.Memory.Runs.{
  Call, reserve_call, claim_call, attempt_call, transition_call, call, calls, call-Step,
}

-- A call that leaves the lease on `id` until `until` alone: it claims before the lease is over,
-- moves another effect, moves this one to a status that keeps the lease, or does neither.
abbrev pub LeavesLease : Text → Time → Call → Type 0
LeavesLease id until (reserve_call _ _ _ _) = Unit
LeavesLease id until (claim_call _ now _ _) = ltb_ℤ now until ≡ true
LeavesLease id until (attempt_call _ _ _ _) = Unit
LeavesLease id until (transition_call j _ target _ _) = (j ≢ id) ⊎ (keeps_lease target ≡ true)

running :
    (status : EffectStatus) (lease : Lease) (now : Time)
    → ltb_ℤ now lease.expires_at ≡ true
    → is_due now status (some lease) ≡ false
unfolding is_due is_free
running status lease now before = ground (arith, before)

start_attempt-leases :
    (id : Text) (v : ℕ) (worker : Text) (now : Time) (s : MemoryStore)
    → (start_attempt id v worker now s).1.leases ≡ s.leases
unfolding start_attempt
start_attempt-leases id v worker now s = ground arith

transition-leases :
    (j id : Text) (v : ℕ) (target : EffectStatus) (metadata : JsonObject) (now : Time)
    (s : MemoryStore)
    → (j ≢ id) ⊎ (keeps_lease target ≡ true)
    → lookup id (transition j v target metadata now s).1.leases ≡ lookup id s.leases
unfolding transition
transition-leases j id v target metadata now s apart =
    ground (arith, lookup-erase j id s.leases, text_eq.beq_iff j id)

All-member :
    (P : EffectRecord → Type 0) (x : EffectRecord) (xs : List EffectRecord)
    → Memᴰ x xs
    → All P xs
    → P x
All-member P x [] inside h = elim inside [ ]
All-member P x (y ∷ xs) (Memᴰ.head same) h = subst P (sym same) h.0
All-member P x (y ∷ xs) (Memᴰ.tail later) h = All-member P x xs later h.1

module _ (p : Platform) (tenant_key : Text → Text) where
  reserve-leases :
      (t : Text) (request : EffectRequest) (contract : EffectContract) (now : Time)
      (s : MemoryStore)
      → (reserve p tenant_key t request contract now s).1.leases ≡ s.leases
  unfolding reserve reserve_new reserve_replay
  reserve-leases t request contract now s =
      elim (Result-cases
        (request_hash p request.tool request.arguments contract.name contract.version)) [
          | inl (digest, hashed) ↦
              elim (Option-cases (lookup (t, request.operation_key) s.identity)) [
                | inl new ↦ ground (arith, hashed, new)
                | inr (id, known) ↦ elim (Option-cases (lookup id s.records)) [
                  | inl missing ↦ ground (arith, hashed, known, missing)
                  | inr (r, found) ↦ ground (arith, hashed, known, found)
                ]
              ]
          | inr (e, refused) ↦ rw refused
        ]

  module _ (id : Text) (lease : Lease) where
    -- A valid store has the effect and the lease on it.
    record Leased (s : MemoryStore) : Type 0 where
      valid : IsValid p tenant_key s
      stored : (r : EffectRecord) × (lookup id s.records ≡ some r)
      leased : lookup id s.leases ≡ some lease

    claim-leases :
        (worker : Text) (now : Time) (lease_for : Duration) (limit : ℤ) (s : MemoryStore)
        → Leased s
        → ltb_ℤ now lease.expires_at ≡ true
        → lookup id (claim_due p worker now lease_for limit s).1.leases ≡ lookup id s.leases
    claim-leases worker now lease_for limit s h before =
        let (r, found) = h.stored in
        let (s', batch, e, c) =
          claim_due_claims p tenant_key worker now lease_for limit s h.valid in
        rw e (elim (c.visited id r found) [
          | inl kept ↦ kept.1
          | inr moved ↦
              let due : is_due now r.status (some lease) ≡ true = rw h.leased at moved.1 in
              absurd (cc (due, running r.status lease now before))
        ])

    call-Leased :
        (c : Call) (s : MemoryStore)
        → LeavesLease id lease.expires_at c
        → Leased s
        → Leased (call p tenant_key c s)
    unfolding call
    call-Leased c s leaves h =
        let step = call-Step p tenant_key c s h.valid in
        let (r', found, _) = step.evolves id h.stored.0 h.stored.1 in
        record { valid = step.valid; stored = (r', found); leased = same_lease c leaves ∙ h.leased }
      where
        same_lease :
            (c : Call)
            → LeavesLease id lease.expires_at c
            → lookup id (call p tenant_key c s).leases ≡ lookup id s.leases
        same_lease (reserve_call t request contract now) _ =
            ap (lookup id) (reserve-leases t request contract now s)
        same_lease (claim_call worker now lease_for limit) before =
            claim-leases worker now lease_for limit s h before
        same_lease (attempt_call j v worker now) _ =
            ap (lookup id) (start_attempt-leases j v worker now s)
        same_lease (transition_call j v target metadata now) apart =
            transition-leases j id v target metadata now s apart

    calls-Leased :
        (cs : List Call) (s : MemoryStore)
        → All (LeavesLease id lease.expires_at) cs
        → Leased s
        → Leased (calls p tenant_key cs s)
    unfolding calls
    calls-Leased [] s leaves h = h
    calls-Leased (c ∷ cs) s leaves h =
        calls-Leased cs (call p tenant_key c s) leaves.1 (call-Leased c s leaves.0 h)

    -- While the lease is running, no claim takes the effect.
    running_lease-not-Taken :
        (worker : Text) (now : Time) (lease_for : Duration) (s s' : MemoryStore) (y : EffectRecord)
        → Leased s
        → ltb_ℤ now lease.expires_at ≡ true
        → Taken p worker now lease_for s.records s s' y
        → id ≢ y.effect_id
    unfolding claimed_record
    running_lease-not-Taken worker now lease_for s s' y h before (k, q, found, due, e, _, _) same =
        let at_k : q.effect_id ≡ k = (h.valid.matches k q found).keyed in
        let y_q : y.effect_id ≡ q.effect_id = ap (λ (z : EffectRecord). z.effect_id) e in
        let there : id ≡ k = same ∙ y_q ∙ at_k in
        let leased : lookup k s.leases ≡ some lease = rw (← there) h.leased in
        let free : is_due now q.status (some lease) ≡ true = rw leased at due in
        cc (free, running q.status lease now before)

  -- While the lease of a claim is running, no claim by any worker returns an effect of its batch,
  -- whatever was called before: reservations, attempts, other claims, transitions of other effects
  -- and transitions of this one to a status that keeps its lease.
  pub claim_exclusive :
      (worker other : Text) (now later : Time) (lease_for other_lease : Duration)
      (limit other_limit : ℤ) (s s1 s2 : MemoryStore) (batch again : List EffectRecord)
      (cs : List Call) (x : EffectRecord)
      → IsValid p tenant_key s
      → claim_due p worker now lease_for limit s ≡ (ok batch, s1)
      → Memᴰ x batch
      → All (LeavesLease x.effect_id (now +ℤ lease_for)) cs
      → ltb_ℤ later (now +ℤ lease_for) ≡ true
      → claim_due p other later other_lease other_limit (calls p tenant_key cs s1) ≡ (ok again, s2)
      → All (λ y. x.effect_id ≢ y.effect_id) again
  claim_exclusive worker other now later lease_for other_lease limit other_limit s s1 s2 batch again
        cs x v first inside leaves before second =
      let c = claim_unique p tenant_key worker now lease_for limit s s1 batch v first in
      let lease = new_lease p worker now lease_for in
      let (j, r, _, _, _, stored, leased) =
        All-member (Taken p worker now lease_for s.records s s1) x batch inside c.taken in
      let at_j : x.effect_id ≡ j = (c.valid.matches j x stored).keyed in
      let start : Leased x.effect_id lease s1 = record {
        valid = c.valid;
        stored = (x, simp at_j stored);
        leased = simp at_j leased;
      } in
      let h = calls-Leased x.effect_id lease cs s1 leaves start in
      let d =
        claim_unique p tenant_key other later other_lease other_limit (calls p tenant_key cs s1) s2
          again h.valid second in
      All-map _ _ again
        (λ y taken.
          running_lease-not-Taken x.effect_id lease other later other_lease
            (calls p tenant_key cs s1) s2 y h before taken)
        d.taken
