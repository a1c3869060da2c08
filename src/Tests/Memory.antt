-- ===== src/Tests/Memory.antt =====
-- The in-memory store after a few calls.
use effect_broker.Prelude.{
  Text, text, text_eq, pair_eq, ◌≡◌, ◌≢◌, refl, ap, ◌∙◌, some, List, [], ◌∷◌, true, false, All,
  ==_refl, ◌==◌, list_beq, inl,
}
use effect_broker.Prelude.Int.{pos, ◌+ℤ◌}
use effect_broker.Prelude.Dict.{lookup, insert, lookup-insert}
use effect_broker.Prelude.Decimal.{pad_zero, str_nat}
use mathlib.Core.List.Memᴰ
use effect_broker.Json.{end}
use effect_broker.Models.{EffectRecord, dispatching, cancelled, Reservation, idempotent, unsafe}
use effect_broker.Errors.{Result, ok, err, payload_conflict}
use effect_broker.Canonical.{
  request_hash, request_value, canonical_json, validate, dumps, dump_entries, members, sort_pairs,
  quote, join,
}
use effect_broker.StateMachine.{is_terminal, is_allowed}
use effect_broker.Store.Laws.{StoreLaws}
use effect_broker.Store.Rows.{updated_record, claimed_record}
use effect_broker.Store.Memory.{
  MemoryStore, empty_store, effect_id_of, reserve, claim_due, claim_loop, claim_step, claim_one,
  new_record,
}
use effect_broker.Store.Memory.Invariant.{IsValid, empty-IsValid}
use effect_broker.Store.Memory.Reservation.{digest_of, fresh_record, fresh_store, reserve_creates}
use effect_broker.Store.Memory.Claims.{Claimed, claim_due_claims}
use effect_broker.Store.Memory.Leases.{claim_exclusive}
use effect_broker.Store.Memory.Evolves.{Evolves}
use effect_broker.Store.Memory.Runs.{
  Call, call, reserve_call, claim_call, attempt_call, transition_call, calls, calls-IsValid,
  one_effect_per_key, terminal_is_final,
}
use effect_broker.Store.Memory.Conforms.{memory_store, memory_view, memory-StoreLaws}
use effect_broker.Store.Memory.Replay.{reserve_again}
use effect_broker.Tests.Data.{
  platform, tenant_key, tenant, request, contract_of, effect, store, store-IsValid, Reached,
  reach_start, reach_next,
}

abbrev worker_calls : List Call
worker_calls =
    claim_call (text "w1") (pos 1) (pos 30) (pos 10)
    ∷ transition_call (effect_id_of 1) 1 dispatching end (pos 2)
    ∷ attempt_call (effect_id_of 1) 2 (text "w1") (pos 3)
    ∷ []

memory-StoreLaws_example :
    StoreLaws (memory_store platform tenant_key) (memory_view platform tenant_key)
memory-StoreLaws_example = memory-StoreLaws platform tenant_key

claim_due_claims_example :
    (s' : MemoryStore) × (batch : List EffectRecord) × (claim_due platform
        (text "w1")
        (pos 1)
        (pos 30)
        (pos 10)
        (store idempotent)
      ≡ (ok batch, s'))
    × Claimed platform tenant_key (text "w1") (pos 1) (pos 30) (pos 10) (store idempotent) s' batch
claim_due_claims_example =
    claim_due_claims platform tenant_key (text "w1") (pos 1) (pos 30) (pos 10) (store idempotent)
      (store-IsValid idempotent)

digest : (d : Text) × (digest_of platform request (contract_of idempotent) ≡ ok d)
unfolding request_hash request_value canonical_json validate dumps dump_entries members sort_pairs
    quote join
digest = (_, refl)

-- One reservation on an empty store.
abbrev reserved_effect : EffectRecord
reserved_effect =
    fresh_record platform tenant_key tenant request (contract_of idempotent) (pos 0) empty_store
      digest.0

abbrev reserved_store : MemoryStore
reserved_store =
    fresh_store platform tenant_key tenant request (contract_of idempotent) (pos 0) empty_store
      digest.0

abbrev reservation : Reservation
reservation = record { effect = reserved_effect; created = true; replayed = false }

reserved_once :
    reserve platform tenant_key tenant request (contract_of idempotent) (pos 0) empty_store
    ≡ (ok reservation, reserved_store)
unfolding empty_store lookup
reserved_once =
    reserve_creates platform tenant_key tenant request (contract_of idempotent) (pos 0) empty_store
      digest.0 digest.1 refl

abbrev one_call : List Call
one_call = reserve_call tenant request (contract_of idempotent) (pos 0) ∷ []

reserved_by_call : calls platform tenant_key one_call empty_store ≡ reserved_store
unfolding calls call
reserved_by_call = ap (λ (x : Result Reservation × MemoryStore). x.1) reserved_once

found_by_call :
    lookup (effect_id_of 1) (calls platform tenant_key one_call empty_store).records
    ≡ some reserved_effect
unfolding empty_store lookup
found_by_call =
    ap (λ (s : MemoryStore). lookup (effect_id_of 1) s.records) reserved_by_call
    ∙ lookup-insert (effect_id_of 1) (effect_id_of 1) reserved_effect []
    ∙ rw (==_refl (effect_id_of 1))

one_effect_per_key_example : (effect_id_of 1 ≡ effect_id_of 1) × (reserved_effect ≡ reserved_effect)
one_effect_per_key_example =
    one_effect_per_key platform tenant_key one_call (effect_id_of 1) (effect_id_of 1)
      reserved_effect reserved_effect found_by_call found_by_call refl refl

reserve_again_example :
    (r : EffectRecord) × (lookup reserved_effect.effect_id
        (calls platform tenant_key worker_calls reserved_store).records
      ≡ some r)
    × Evolves reserved_effect r
    × (digest_of platform request (contract_of idempotent) ≡ ok digest.0
        → reserve platform tenant_key tenant request
            (contract_of idempotent)
            (pos 9)
            (calls platform tenant_key worker_calls reserved_store)
          ≡ (
            ok (record { effect = r; created = false; replayed = true }),
            calls platform tenant_key worker_calls reserved_store,
          ))
    × (digest_of platform request (contract_of idempotent) ≢ ok digest.0
        → reserve platform tenant_key tenant request
            (contract_of idempotent)
            (pos 9)
            (calls platform tenant_key worker_calls reserved_store)
          ≡ (
            err (payload_conflict (text "op") r.request_hash digest.0),
            calls platform tenant_key worker_calls reserved_store,
          ))
reserve_again_example =
    reserve_again platform tenant_key tenant request request (contract_of idempotent)
      (contract_of idempotent) (pos 0) (pos 9) empty_store reserved_store reservation worker_calls
      digest.0 (empty-IsValid platform tenant_key) reserved_once refl digest.1

abbrev cancelled_effect : EffectRecord
cancelled_effect = updated_record (effect unsafe) cancelled (pos 1)

reach_cancelled : Reached unsafe cancelled_effect
unfolding is_allowed new_record
reach_cancelled = reach_next unsafe cancelled (reach_start unsafe) refl

terminal_is_final_example :
    lookup cancelled_effect.effect_id
      (calls platform tenant_key worker_calls reach_cancelled.state).records
    ≡ some cancelled_effect
unfolding is_terminal updated_record
terminal_is_final_example =
    terminal_is_final platform tenant_key worker_calls reach_cancelled.state
      cancelled_effect.effect_id cancelled_effect reach_cancelled.valid reach_cancelled.has refl

abbrev claimed_effect : EffectRecord
claimed_effect = claimed_record (effect idempotent) (pos 1)

abbrev claimed_store : MemoryStore
claimed_store = (claim_due platform (text "w1") (pos 1) (pos 30) (pos 10) (store idempotent)).1

claims_it :
    claim_due platform (text "w1") (pos 1) (pos 30) (pos 10) (store idempotent)
    ≡ (ok (claimed_effect ∷ []), claimed_store)
unfolding claim_due new_record claimed_record claim_loop claim_step claim_one lookup insert
    empty_store list_beq effect_id_of text pad_zero str_nat
claims_it = refl

-- Another worker claims, an attempt starts, and a stranger's effect moves.
abbrev others_calls : List Call
others_calls =
    claim_call (text "w2") (pos 10) (pos 30) (pos 10)
    ∷ attempt_call claimed_effect.effect_id 1 (text "w1") (pos 11)
    ∷ transition_call (text "other") 1 dispatching end (pos 12)
    ∷ []

abbrev later_store : MemoryStore
later_store = calls platform tenant_key others_calls claimed_store

later_store-IsValid : IsValid platform tenant_key later_store
unfolding calls call
later_store-IsValid =
    calls-IsValid platform tenant_key
      (claim_call (text "w1") (pos 1) (pos 30) (pos 10) ∷ others_calls) (store idempotent)
      (store-IsValid idempotent)

abbrev second_claim :
    (s' : MemoryStore) × (batch : List EffectRecord) × (claim_due platform
        (text "w2")
        (pos 20)
        (pos 30)
        (pos 10)
        later_store
      ≡ (ok batch, s'))
    × Claimed platform tenant_key (text "w2") (pos 20) (pos 30) (pos 10) later_store s' batch
second_claim =
    claim_due_claims platform tenant_key (text "w2") (pos 20) (pos 30) (pos 10) later_store
      later_store-IsValid

not_other : text "other" ≢ claimed_effect.effect_id
not_other e = cc ((text_eq.beq_iff (text "other") claimed_effect.effect_id).1 e, differs)
  where
    differs : (text "other" == claimed_effect.effect_id) ≡ false
    differs =
        unfold text new_record claimed_record effect_id_of pad_zero str_nat list_beq empty_store in
        refl

claim_exclusive_example : All (λ y. claimed_effect.effect_id ≢ y.effect_id) second_claim.1
unfolding ◌+ℤ◌
claim_exclusive_example =
    claim_exclusive platform tenant_key (text "w1") (text "w2") (pos 1) (pos 20) (pos 30) (pos 30)
      (pos 10) (pos 10) (store idempotent) claimed_store second_claim.0 (claimed_effect ∷ [])
      second_claim.1 others_calls claimed_effect (store-IsValid idempotent) claims_it
      (Memᴰ.head refl) (refl, (tt, (inl not_other, tt))) refl second_claim.2
