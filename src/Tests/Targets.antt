-- ===== src/Tests/Targets.antt =====
-- Dispatches, redispatches and a probe of the simulated target.
use effect_broker.Prelude.{
  list_beq, ◌≤◌, ◌≢◌, nat_beq, if◌then◌else◌, Text, text, text_eq, ◌≡◌, refl, none, some, List, [],
  ◌∷◌, length, true, false, ==_refl,
}
use effect_broker.Prelude.Int.{pos, ◌+ℤ◌}
use effect_broker.Prelude.Dict.{lookup}
use effect_broker.Models.{
  EffectRecord, ProbeResult, committed, not_committed, outcome_unknown, unsafe, DispatchResult,
  idempotent, reconcilable,
}
use effect_broker.Errors.{ok}
use effect_broker.Store.Memory.{new_record}
use effect_broker.Adapters.Simulated.{
  SimulatedCharge, SimulatedTarget, empty_target, charges_for_key, dedupes, simulated_adapter,
  probe,
}
use effect_broker.Adapters.Simulated.Charges.{Deduped, empty-Deduped, made, after, after-Deduped}
use effect_broker.Adapters.Conformance.{stable_key_reuse, payload_drift_rejection, positive_probe}
use effect_broker.Adapters.Simulated.Conforms.{passes_conformance}
use effect_broker.Adapters.Simulated.Once.{
  TargetCall, dispatches, loses_next_response, sets_now, run_calls, HasCharge,
  redispatch_charges_once,
}
use effect_broker.Adapters.Simulated.Probes.{probe_is_honest}
use effect_broker.CrashMatrix.{
  payload_of, commit_body, insert_call, commit_row, select_by_key, insert_target_effect, next_id,
  TargetCommit, DurableTarget, count, commit_call_count, adapter_probe, create_schema,
  target_commit, target_dispatch,
}
use effect_broker.CrashMatrix.Runs.{CommitArgs, accepted, target_commits_once, commit_all}
use effect_broker.CrashMatrix.Redispatch.{redispatch_same_result, result_of}
use effect_broker.Canonical.{validate, dumps, downstream_key, canonical_json}
use effect_broker.Json.{str}
use effect_broker.Adapters.Simulated.{charge_id_of}
use effect_broker.Store.Rows.{object}
use effect_broker.Store.Sql.{transaction, first_where, count_where}
use effect_broker.Prelude.Decimal.{pad_zero, str_nat}
use effect_broker.Store.Memory.{MemoryStore}
use effect_broker.Store.Memory.Conforms.{memory_store}
use effect_broker.World.{World}
use effect_broker.Observability.{no_metrics}
use effect_broker.Reconcile.{key_retention_valid, retention_valid}
use effect_broker.Store.Rows.{updated_record}
use effect_broker.CrashMatrix.Commits.{added, new_row, added-IsValid, create-IsValid}
use effect_broker.CrashMatrix.Held.{Held}
use effect_broker.CrashMatrix.Recovery.{
  Recovered, recovered_status, tries_after, target_after_recovery, committed_effect_recovers,
}
use effect_broker.Tests.Data.{
  effect, platform, tenant_key, view, laws, ambiguous_effect, reach_unknown,
}

-- The answer to the first dispatch is lost, and the effect is dispatched again.
abbrev twice : List TargetCall
twice =
    loses_next_response
    ∷ dispatches (effect idempotent) (text "attempt-1")
    ∷ sets_now (pos 9)
    ∷ dispatches (effect idempotent) (text "attempt-2")
    ∷ []

redispatch_charges_once_example :
    ((i j : Text) (a b : SimulatedCharge)
      → lookup i (run_calls twice (empty_target (pos 0))).charges ≡ some a
      → lookup j (run_calls twice (empty_target (pos 0))).charges ≡ some b
      → a.downstream_key ≡ b.downstream_key
      → i ≡ j)
    × ((key : Text)
        → (cs : List SimulatedCharge) × (charges_for_key key
              (run_calls twice (empty_target (pos 0)))
            ≡ ok cs)
          × (length cs ≤ 1))
unfolding new_record dedupes
redispatch_charges_once_example =
    redispatch_charges_once twice (pos 0) (tt, (refl, (tt, (refl, tt))))

-- A target with the charge of the idempotent effect.
abbrev charged : SimulatedTarget
charged = after (effect idempotent) (empty_target (pos 0))

charged-Deduped : Deduped charged
unfolding lookup empty_target
charged-Deduped =
    after-Deduped (effect idempotent) (empty_target (pos 0)) (empty-Deduped (pos 0)) refl

abbrev known_charge : SimulatedCharge
known_charge = made (effect idempotent) (empty_target (pos 0))

probe_is_honest_example :
    (result : ProbeResult) × (probe (effect reconcilable) charged ≡ (ok result, charged))
    × (result.status ≡ committed
        → (c : SimulatedCharge) × HasCharge (effect reconcilable).downstream_key c charged
          × (result.external_id ≡ some c.external_id))
    × (result.status ≡ not_committed
        → lookup (effect reconcilable).downstream_key charged.by_downstream_key ≡ none)
probe_is_honest_example = probe_is_honest (effect reconcilable) charged charged-Deduped

passes_conformance_example :
    ((stable_key_reuse simulated_adapter (effect idempotent) (empty_target (pos 0))).0 ≡ ok tt)
    × ((payload_drift_rejection simulated_adapter (effect idempotent) (empty_target (pos 0))).0
        ≡ ok tt)
    × (false ≡ false
        → (positive_probe simulated_adapter (effect idempotent) (empty_target (pos 0))).0 ≡ ok tt)
unfolding new_record dedupes empty_target lookup
passes_conformance_example =
    passes_conformance (effect idempotent) (empty_target (pos 0)) (empty-Deduped (pos 0)) refl refl
      refl

-- The durable target is called for another key, and then the effect is dispatched to it.
abbrev other_call : CommitArgs
other_call = record { now = pos 1; key = text "other"; payload = str (text "x") }

abbrev first_result : DispatchResult
first_result = result_of (charge_id_of 2)

abbrev retried : EffectRecord
retried = record (effect idempotent) { status = outcome_unknown; version = 3 }

first_returns :
    (target_dispatch platform
      (effect idempotent)
      (text "attempt-1")
      (commit_all platform (other_call ∷ []) (create_schema (pos 0)))).0
    ≡ ok first_result
unfolding target_dispatch target_commit new_record canonical_json validate payload_of object dumps
    transaction commit_body insert_call commit_row select_by_key first_where create_schema
    insert_target_effect count_where list_beq text downstream_key charge_id_of next_id pad_zero
    str_nat
first_returns = refl

redispatch_same_result_example :
    (t : DurableTarget) × (u : DurableTarget) × (commit_all platform
        (other_call ∷ [])
        (target_dispatch platform
          (effect idempotent)
          (text "attempt-1")
          (commit_all platform (other_call ∷ []) (create_schema (pos 0)))).1
      ≡ t)
    × (target_dispatch platform retried (text "attempt-2") t ≡ (ok first_result, u))
    × (u.target_effects ≡ t.target_effects)
    × (retried.contract.safety ≢ unsafe
        → ((adapter_probe retried t).status ≡ committed)
          × ((adapter_probe retried t).external_id ≡ first_result.external_id))
unfolding new_record payload_of
redispatch_same_result_example =
    redispatch_same_result platform (other_call ∷ []) (other_call ∷ []) (pos 0) (effect idempotent)
      retried (text "attempt-1") (text "attempt-2") first_result refl refl first_returns

target_commits_once_example :
    (count
        (text "other")
        (commit_all platform (other_call ∷ other_call ∷ []) (create_schema (pos 0)))
      ≡ (if nat_beq (accepted (text "other") (other_call ∷ other_call ∷ [])) 0 then 0 else 1))
    × (commit_call_count
          (text "other")
          (commit_all platform (other_call ∷ other_call ∷ []) (create_schema (pos 0)))
        ≡ accepted (text "other") (other_call ∷ other_call ∷ []))
target_commits_once_example =
    target_commits_once platform (other_call ∷ other_call ∷ []) (pos 0) (text "other")

-- An effect whose dispatch committed and whose answer was lost.
abbrev lost : EffectRecord
lost = ambiguous_effect idempotent

printed : (json : Text) × (canonical_json (payload_of lost) ≡ ok json)
unfolding canonical_json payload_of new_record updated_record validate object dumps
printed = (_, refl)

abbrev committed_target : DurableTarget
committed_target = added platform lost.downstream_key printed.0 (create_schema (pos 0))

abbrev committed_row : TargetCommit
committed_row = new_row platform lost.downstream_key printed.0 (create_schema (pos 0))

no_row : select_by_key lost.downstream_key (create_schema (pos 0)) ≡ none
unfolding select_by_key first_where create_schema
no_row = refl

has_row : select_by_key lost.downstream_key committed_target ≡ some committed_row
unfolding select_by_key first_where create_schema
has_row = rw (==_refl lost.downstream_key)

abbrev crashed : World MemoryStore DurableTarget
crashed = record {
  store = (reach_unknown idempotent).state;
  target = committed_target;
  metrics = no_metrics;
  clock = λ n. pos n;
  reads = 0;
}

retained : key_retention_valid lost (pos 1) ≡ true
unfolding new_record updated_record key_retention_valid retention_valid ◌+ℤ◌
retained = refl

is_lost : lost.status ≡ outcome_unknown
unfolding updated_record
is_lost = refl

lost-Held :
    Held
      (memory_store platform tenant_key)
      view
      laws
      lost
      (view.attempts lost.effect_id crashed.store)
      crashed.store
lost-Held = record {
  valid = (reach_unknown idempotent).valid;
  found = (reach_unknown idempotent).has;
  tried = refl;
}

committed_effect_recovers_example :
    (final : EffectRecord) × (w' : World MemoryStore DurableTarget) × Recovered
      (memory_store platform tenant_key)
      view
      laws
      platform
      lost
      (view.attempts lost.effect_id crashed.store)
      crashed
      (recovered_status lost.contract.safety)
      (tries_after lost.contract.safety (view.attempts lost.effect_id crashed.store))
      (target_after_recovery platform lost.contract.safety lost.downstream_key printed.0
        crashed.target)
      final
      w'
committed_effect_recovers_example =
    committed_effect_recovers (memory_store platform tenant_key) view laws platform lost
      (view.attempts lost.effect_id crashed.store) crashed lost-Held is_lost committed_row has_row
      (added-IsValid platform lost.downstream_key printed.0 (create_schema (pos 0))
        (create-IsValid (pos 0)) no_row)
      printed.0 printed.1 (λ _. retained)
