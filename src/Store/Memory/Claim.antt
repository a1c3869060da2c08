-- ===== src/Store/Memory/Claim.antt =====
-- `claim_due` of src/effect_broker/store/memory.py.
use effect_broker.Prelude.{
  Text, text, text_eq, Bool, true, ◌&&◌, Option, none, some, List, [], ◌∷◌, ◌++◌, length,
  if◌then◌else◌,
}
use effect_broker.Prelude.Int.{ℤ, pos, ◌+ℤ◌, leb_ℤ}
use effect_broker.Prelude.Dict.{lookup, insert}
use effect_broker.Json.{str}
use effect_broker.Models.{
  EffectStatus, prepared, retryable, status_beq, contains, EffectRecord, Time, Duration,
}
use effect_broker.Errors.{ok}
use effect_broker.Exec.{Exec, pure, modify, ◌>>=◌, ◌>>◌}
use effect_broker.Platform.{Platform}
use effect_broker.Store.Rows.{object, claimed_record}
use effect_broker.Store.Memory.State.{MemoryStore, Lease, claimed, append_event}

-- No lease is held on the effect at `now`.
unfoldable pub is_free : Time → Option Lease → Bool
is_free now none = true
is_free now (some lease) = leb_ℤ lease.expires_at now

-- The two tests that skip an effect.
unfoldable pub is_due : Time → EffectStatus → Option Lease → Bool
unfolding is_free contains status_beq
is_due now status lease = contains status (prepared ∷ retryable ∷ []) && is_free now lease

-- `len(claimed) >= limit`
unfoldable pub is_full : ℤ → List EffectRecord → Bool
is_full limit batch = leb_ℤ limit (pos (length batch))

module _ (p : Platform) (worker_id : Text) (now : Time) (lease_for : Duration) where
  unfoldable pub claim_one :
      Text → EffectRecord → List EffectRecord → Exec MemoryStore (List EffectRecord)
  unfolding claimed_record append_event object
  claim_one effect_id effect batch = do
    let updated = claimed_record effect now
    modify λ s. record s {
      records = insert effect_id updated s.records;
      leases =
          insert effect_id (record { worker_id = worker_id; expires_at = now +ℤ lease_for })
            s.leases;
    }
    append_event effect_id claimed updated.version
        (object (
          (text "worker_id", str worker_id)
          ∷ (text "lease_expires_at", str (p.isoformat (now +ℤ lease_for)))
          ∷ []))
        now
    pure (batch ++ updated ∷ [])

  -- One round of the loop. Once the batch is full every later round does nothing, which is what
  -- `break` comes to.
  unfoldable pub claim_step :
      ℤ → Text × EffectRecord → List EffectRecord → Exec MemoryStore (List EffectRecord)
  unfolding is_full is_due
  claim_step limit (effect_id, effect) batch s =
      if is_full limit batch
      then (ok batch, s)
      else if is_due now effect.status (lookup effect_id s.leases)
      then claim_one effect_id effect batch s
      else (ok batch, s)

  unfoldable pub claim_loop :
      ℤ → List (Text × EffectRecord) → List EffectRecord → Exec MemoryStore (List EffectRecord)
  claim_loop limit [] batch = pure batch
  claim_loop limit (item ∷ items) batch = do
    batch' ← claim_step limit item batch
    claim_loop limit items batch'

  unfoldable pub claim_due : ℤ → Exec MemoryStore (List EffectRecord)
  claim_due limit s = if leb_ℤ limit (pos 0) then (ok [], s) else claim_loop limit s.records [] s
