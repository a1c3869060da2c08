-- ===== src/Store/Memory/Runs.antt =====
-- Sequences of calls on the in-memory store (src/effect_broker/store/memory.py), in any order and
-- by any callers: what they keep.
use effect_broker.Prelude.{
  ℕ, Text, text_eq, pair_eq, ◌≡◌, ◌≢◌, refl, subst, none, some, List, [], ◌∷◌, true, ◌==◌, arith,
  Bool-cases, Option-cases, inl, inr, nat_beq,
}
use effect_broker.Prelude.Int.{ℤ}
use effect_broker.Prelude.Dict.{lookup}
use effect_broker.Json.{JsonObject}
use effect_broker.Models.{EffectRecord, EffectRequest, EffectContract, EffectStatus, Time, Duration}
use effect_broker.Errors.{Result, ok, err, version_conflict}
use effect_broker.Platform.{Platform}
use effect_broker.StateMachine.{is_allowed, is_terminal}
use effect_broker.Store.Rows.{claimed_record}
use effect_broker.Store.Memory.State.{
  MemoryStore, MemoryEvent, empty_store, reserve, start_attempt, transition,
}
use effect_broker.Store.Memory.Claim.{claim_due}
use effect_broker.Store.Memory.Invariant.{IsValid, Updates, update-IsValid, empty-IsValid}
use effect_broker.Store.Memory.Steps.{
  transition_missing, transition_stale, transition_forbidden, transition_runs, transition-Updates,
  start_attempt_missing, start_attempt_stale, start_attempt_runs, start_attempt-Updates,
}
use effect_broker.Store.Memory.Reservation.{
  digest_of, fresh_store, reserve_rejects, reserve_creates, reserve_replays, reserve_conflicts,
  fresh-IsValid, fresh-keeps,
}
use effect_broker.Store.Memory.Claims.{Claimed, claim_due_claims}
use effect_broker.Store.Memory.Evolves.{
  Evolves, same, updated-Evolves, Evolves-trans, terminal_same, version_grows, claimed-Evolves,
}

-- One call, with the answer of `datetime.now` where the method reads it.
pub data Call : Type 0 where
  reserve_call : Text → EffectRequest → EffectContract → Time → Call
  claim_call : Text → Time → Duration → ℤ → Call
  attempt_call : Text → ℕ → Text → Time → Call
  transition_call : Text → ℕ → EffectStatus → JsonObject → Time → Call

module _ (p : Platform) (tenant_key : Text → Text) where
  -- The store after one call, whether it returned or raised.
  unfoldable pub call : Call → MemoryStore → MemoryStore
  call (reserve_call t request contract now) s = (reserve p tenant_key t request contract now s).1
  call (claim_call worker now lease_for limit) s = (claim_due p worker now lease_for limit s).1
  call (attempt_call id v worker now) s = (start_attempt id v worker now s).1
  call (transition_call id v target metadata now) s = (transition id v target metadata now s).1

  unfoldable pub calls : List Call → MemoryStore → MemoryStore
  calls [] s = s
  calls (c ∷ cs) s = calls cs (call c s)

  -- What one call does to a valid store.
  pub record Step (s s' : MemoryStore) : Type 0 where
    pub valid : IsValid p tenant_key s'
    pub evolves :
        (j : Text) (r : EffectRecord)
        → lookup j s.records ≡ some r
        → (r' : EffectRecord) × (lookup j s'.records ≡ some r') × Evolves r r'

  stays : (s : MemoryStore) → IsValid p tenant_key s → Step s s
  stays s v = record { valid = v; evolves = λ j r h. (r, h, same refl) }

  -- An update with an evolution of its record is a step.
  update-Step :
      {s s' : MemoryStore} {id : Text} {r r' : EffectRecord} {e : MemoryEvent}
      → Updates s s' id r r' e
      → IsValid p tenant_key s
      → Evolves r r'
      → Step s s'
  update-Step {s} {s'} {id} {r} {r'} u v ev = record {
    valid = update-IsValid p tenant_key u v;
    evolves = λ j x h. after j x h;
  }
    where
      after :
          (j : Text) (x : EffectRecord)
          → lookup j s.records ≡ some x
          → (x' : EffectRecord) × (lookup j s'.records ≡ some x') × Evolves x x'
      after j x h = elim (Bool-cases (id == j)) [
        | inl at_id ↦
            let there : id ≡ j = ground (arith, text_eq.beq_iff id j) in
            let was : x ≡ r = ground (arith, u.before) in
            (r', rw (u.records_at j, at_id), rw was ev)
        | inr other ↦ (x, rw (u.records_at j, other) h, same refl)
      ]

  module _ (s : MemoryStore) (v : IsValid p tenant_key s) where
    transition-Step :
        (id : Text) (version : ℕ) (target : EffectStatus) (metadata : JsonObject) (now : Time)
        → Step s (transition id version target metadata now s).1
    transition-Step id version target metadata now = elim (Option-cases (lookup id s.records)) [
      | inl missing ↦ rw (transition_missing id version target metadata now s missing) (stays s v)
      | inr (r, found) ↦ elim (Bool-cases (nat_beq r.version version)) [
        | inr stale ↦
            rw (transition_stale id version target metadata now s r found (ground arith))
              (stays s v)
        | inl current ↦ elim (Bool-cases (is_allowed r.status target)) [
          | inr no_edge ↦
              rw
                (transition_forbidden id version target metadata now s r found (ground arith)
                  no_edge)
                (stays s v)
          | inl edge ↦
              let (log, has_log) = (v.matches id r found).has_log in
              rw
                (transition_runs id version target metadata now s r log found has_log (ground arith)
                  edge)
                (update-Step
                  (transition-Updates id version target metadata now s r log found has_log) v
                  (updated-Evolves r target now edge))
        ]
      ]
    ]

    attempt-Step :
        (id : Text) (version : ℕ) (worker : Text) (now : Time)
        → Step s (start_attempt id version worker now s).1
    attempt-Step id version worker now = elim (Option-cases (lookup id s.records)) [
      | inl missing ↦ rw (start_attempt_missing id version worker now s missing) (stays s v)
      | inr (r, found) ↦ elim (Bool-cases (nat_beq r.version version)) [
        | inr stale ↦
            rw (start_attempt_stale id version worker now s r found (ground arith)) (stays s v)
        | inl current ↦
            let m = v.matches id r found in
            let (log, has_log) = m.has_log in
            let (rows, has_rows) = m.has_attempts in
            rw
              (start_attempt_runs id version worker now s r log rows found has_log has_rows
                (ground arith))
              (update-Step (start_attempt-Updates id version worker now s r log rows found has_log)
                v (same refl))
      ]
    ]

    claim-Step :
        (worker : Text) (now : Time) (lease_for : Duration) (limit : ℤ)
        → Step s (claim_due p worker now lease_for limit s).1
    claim-Step worker now lease_for limit =
        let (s', batch, e, c) = claim_due_claims p tenant_key worker now lease_for limit s v in
        rw e (record { valid = c.valid; evolves = λ j r h. claimed_evolves s' batch c j r h })
      where
        claimed_evolves :
            (s' : MemoryStore) (batch : List EffectRecord)
            → Claimed p tenant_key worker now lease_for limit s s' batch
            → (j : Text) (r : EffectRecord) → lookup j s.records ≡ some r
            → (r' : EffectRecord) × (lookup j s'.records ≡ some r') × Evolves r r'
        claimed_evolves s' batch c j r h = elim (c.visited j r h) [
          | inl kept ↦ (r, kept.0, same refl)
          | inr taken ↦
              (claimed_record r now, taken.0, claimed-Evolves r now (lookup j s.leases) taken.1)
        ]

    reserve-Step :
        (t : Text) (request : EffectRequest) (contract : EffectContract) (now : Time)
        → Step s (reserve p tenant_key t request contract now s).1
    reserve-Step t request contract now = go (digest_of p request contract) refl
      where
        created :
            (digest : Text)
            → lookup (t, request.operation_key) s.identity ≡ none
            → Step s (fresh_store p tenant_key t request contract now s digest)
        created digest new = record {
          valid = fresh-IsValid p tenant_key t request contract now s digest v new;
          evolves = λ j r h.
              (r, fresh-keeps p tenant_key t request contract now s digest v new j r h, same refl);
        }

        go :
            (d : Result Text)
            → digest_of p request contract ≡ d
            → Step s (reserve p tenant_key t request contract now s).1
        go (err e) h = rw (reserve_rejects p tenant_key t request contract now s e h) (stays s v)
        go (ok digest) h = elim (Option-cases (lookup (t, request.operation_key) s.identity)) [
          | inl new ↦
              rw (reserve_creates p tenant_key t request contract now s digest h new)
                (created digest new)
          | inr (id, known) ↦
              let (r, found, _, _) = v.named t request.operation_key id known in
              elim (Bool-cases (r.request_hash == digest)) [
                | inl equal ↦
                    rw
                      (reserve_replays p tenant_key t request contract now s id digest r h known
                        found ((text_eq.beq_iff r.request_hash digest).0 equal))
                      (stays s v)
                | inr differ ↦
                    rw
                      (reserve_conflicts p tenant_key t request contract now s id digest r h known
                        found (λ e. cc ((text_eq.beq_iff r.request_hash digest).1 e)))
                      (stays s v)
              ]
        ]

  pub call-Step : (c : Call) (s : MemoryStore) → IsValid p tenant_key s → Step s (call c s)
  unfolding call
  call-Step (reserve_call t request contract now) s v = reserve-Step s v t request contract now
  call-Step (claim_call worker now lease_for limit) s v = claim-Step s v worker now lease_for limit
  call-Step (attempt_call id version worker now) s v = attempt-Step s v id version worker now
  call-Step (transition_call id version target metadata now) s v =
      transition-Step s v id version target metadata now

  -- Any sequence of calls, by any callers, failing or not, keeps the invariant of the store.
  pub calls-IsValid :
      (cs : List Call) (s : MemoryStore)
      → IsValid p tenant_key s
      → IsValid p tenant_key (calls cs s)
  unfolding calls
  calls-IsValid [] s v = v
  calls-IsValid (c ∷ cs) s v = calls-IsValid cs (call c s) (call-Step c s v).valid

  -- After any calls on an empty store, two stored effects of one tenant with one operation key
  -- are the same effect.
  pub one_effect_per_key :
      (cs : List Call) (i j : Text) (a b : EffectRecord)
      → lookup i (calls cs empty_store).records ≡ some a
      → lookup j (calls cs empty_store).records ≡ some b
      → a.tenant_id ≡ b.tenant_id
      → a.request.operation_key ≡ b.request.operation_key
      → (i ≡ j) × (a ≡ b)
  one_effect_per_key cs i j a b ha hb tenant key =
      let v = calls-IsValid cs empty_store (empty-IsValid p tenant_key) in
      let at_i = (v.matches i a ha).indexed in
      let at_j = (v.matches j b hb).indexed in let e : i ≡ j = cc (at_i, at_j) in (e, cc)

  -- Over any calls on a valid store an effect keeps everything that its reservation fixed; its version only grows,
  -- its status only follows allowed transitions, and the record is unchanged while its version is.
  pub calls-Evolves :
      (cs : List Call) (s : MemoryStore) (j : Text) (r : EffectRecord)
      → IsValid p tenant_key s
      → lookup j s.records ≡ some r
      → (r' : EffectRecord) × (lookup j (calls cs s).records ≡ some r') × Evolves r r'
  unfolding calls
  calls-Evolves [] s j r v h = (r, h, same refl)
  calls-Evolves (c ∷ cs) s j r v h =
      let step = call-Step c s v in
      let (q, found, first) = step.evolves j r h in
      let (x, last, rest) = calls-Evolves cs (call c s) j q step.valid found in
      (x, last, Evolves-trans first rest)

  -- From a valid store, no sequence of calls changes an effect in a terminal status.
  pub terminal_is_final :
      (cs : List Call) (s : MemoryStore) (j : Text) (r : EffectRecord)
      → IsValid p tenant_key s
      → lookup j s.records ≡ some r
      → is_terminal r.status ≡ true
      → lookup j (calls cs s).records ≡ some r
  terminal_is_final cs s j r v h final =
      let (r', found, ev) = calls-Evolves cs s j r v h in rw (← terminal_same ev final) found

  -- From a valid store: a write that expects the version an effect had before it moved on is
  -- refused, whatever calls came in between, and it changes nothing.
  pub stale_write_fenced :
      (cs : List Call) (s : MemoryStore) (j : Text) (r r' : EffectRecord) (target : EffectStatus)
      (metadata : JsonObject) (now : Time)
      → IsValid p tenant_key s
      → lookup j s.records ≡ some r
      → lookup j (calls cs s).records ≡ some r'
      → r' ≢ r
      → transition j r.version target metadata now (calls cs s)
        ≡ (err (version_conflict j r.version r'.version), calls cs s)
  stale_write_fenced cs s j r r' target metadata now v h h' moved_on =
      let (x, found, ev) = calls-Evolves cs s j r v h in
      let e : x ≡ r' = cc in
      let grows = version_grows (subst (λ z. Evolves r z) e ev) moved_on in
      transition_stale j r.version target metadata now (calls cs s) r' h' (omega arith)
