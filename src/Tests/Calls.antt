-- ===== src/Tests/Calls.antt =====
-- The worker, the reconciler and the broker on one effect of the in-memory store.
use effect_broker.Prelude.{some, inl, List, All, ℕ, ◌+◌, text, ◌≡◌, refl, arith, text_eq, list_beq}
use effect_broker.Prelude.Int.{pos, ◌+ℤ◌}
use effect_broker.Models.{
  EffectRecord, prepared, dispatching, succeeded, reconciling, manual_review, SafetyClass,
  idempotent, reconcilable, unsafe,
}
use effect_broker.Errors.{Error, ok, err, other_exception, version_conflict, invalid_transition}
use effect_broker.Observability.{
  Metrics, no_metrics, record_reconciliation_outcome, record_fenced_stale_write,
}
use effect_broker.StateMachine.{is_allowed, route_unknown}
use effect_broker.Store.{EffectStore}
use effect_broker.Store.Laws.{Apart, Claimable}
use effect_broker.Store.Rows.{updated_record, claimed_record}
use effect_broker.Store.Memory.{MemoryStore, new_record, attempt_count, empty_store, effect_id_of}
use effect_broker.Prelude.Dict.{lookup, insert}
use effect_broker.Prelude.Decimal.{pad_zero, str_nat}
use effect_broker.Store.Memory.Conforms.{memory_store}
use effect_broker.Adapters.{AdapterFor}
use effect_broker.World.{World}
use effect_broker.Fenced.Laws.{Moves}
use effect_broker.Fenced.Attempt.{Settled}
use effect_broker.Worker.{dispatch_effect, dispatch_once}
use effect_broker.Worker.Loop.{Outcomes, dispatch_once_returns}
use effect_broker.Worker.Outcome.{called}
use effect_broker.Worker.Round.{persisted, dispatch_effect_finishes, stale_worker_never_dispatches}
use effect_broker.Reconcile.{reconcile_once, key_retention_valid}
use effect_broker.Reconcile.Exclusive.{second_reconciler_fails}
use effect_broker.Reconcile.Routes.{unsafe_goes_to_review, expired_key_goes_to_review}
use effect_broker.Reconcile.Answers.{probe_decides}
use effect_broker.Reconcile.Redispatch.{redispatch_decides}
use effect_broker.Reconcile.Failures.{failed_probe_strands}
use effect_broker.Tests.Data.{
  platform, tenant_key, view, laws, effect, store-IsValid, store_has, world, answering, adapters,
  a_commit, an_absence, ambiguous_effect, reach_unknown, world_of,
}

abbrev broker : EffectStore MemoryStore
broker = memory_store platform tenant_key

abbrev calls : AdapterFor ℕ
calls = adapters a_commit (ok an_absence)

dispatch_effect_finishes_example :
    (w' : World MemoryStore ℕ) × (dispatch_effect broker calls
        (text "w1")
        (effect idempotent)
        (world idempotent)
      ≡ (
        ok (
            persisted broker view laws calls
              (text "w1")
              (effect idempotent)
              (world idempotent)
              a_commit
              1),
        w',
      ))
    × Settled broker view laws
        (effect idempotent)
        (persisted broker view laws calls
          (text "w1")
          (effect idempotent)
          (world idempotent)
          a_commit
          1)
        1
        1
        (world idempotent)
        w'
unfolding is_allowed new_record attempt_count lookup insert empty_store list_beq effect_id_of text
    pad_zero str_nat
dispatch_effect_finishes_example =
    dispatch_effect_finishes broker view laws calls (text "w1") (effect idempotent) a_commit 1
      (world idempotent) (store-IsValid idempotent) (store_has idempotent) refl
      (called (answering a_commit (ok an_absence)) a_commit 1 refl refl)

abbrev claimed_before : EffectRecord
claimed_before = record (effect idempotent) { version = 7 }

stale_worker_never_dispatches_example :
    dispatch_effect broker calls (text "w1") claimed_before (world idempotent) ≡ (
      err (version_conflict claimed_before.effect_id 7 0),
      record (world idempotent) { reads = 1; metrics = record_fenced_stale_write no_metrics },
    )
unfolding new_record
stale_worker_never_dispatches_example =
    stale_worker_never_dispatches broker view laws calls (text "w1") claimed_before
      (effect idempotent) (world idempotent) (store_has idempotent) (λ e. omega arith)

abbrev ambiguous : (safety : SafetyClass) → World MemoryStore ℕ
ambiguous safety = world_of safety (reach_unknown safety)

unsafe_goes_to_review_example :
    (w' : World MemoryStore ℕ) × (reconcile_once broker calls
        (ambiguous_effect unsafe)
        (ambiguous unsafe)
      ≡ (ok (updated_record (ambiguous_effect unsafe) manual_review (pos 0)), w'))
    × Moves broker view laws
        (ambiguous_effect unsafe)
        (updated_record (ambiguous_effect unsafe) manual_review (pos 0))
        (record (ambiguous unsafe) {
          metrics = record_reconciliation_outcome (text "unsafe_unknown") no_metrics;
        })
        w'
unfolding new_record updated_record is_allowed
unsafe_goes_to_review_example =
    unsafe_goes_to_review broker view laws calls (ambiguous_effect unsafe) (ambiguous unsafe)
      (reach_unknown unsafe).valid (reach_unknown unsafe).has refl refl

-- The key was promised for 100 units, and the clock says 101.
abbrev late : World MemoryStore ℕ
late = record (ambiguous idempotent) { reads = 100 }

expired_key_goes_to_review_example :
    (w' : World MemoryStore ℕ) × (m : Metrics) × (reconcile_once broker calls
        (ambiguous_effect idempotent)
        late
      ≡ (ok (updated_record (ambiguous_effect idempotent) manual_review (pos 102)), w'))
    × Moves broker view laws
        (ambiguous_effect idempotent)
        (updated_record (ambiguous_effect idempotent) manual_review (pos 102))
        (record late { metrics = m; reads = 102 })
        w'
unfolding new_record updated_record is_allowed key_retention_valid ◌+ℤ◌
expired_key_goes_to_review_example =
    expired_key_goes_to_review broker view laws calls (ambiguous_effect idempotent) late
      (reach_unknown idempotent).valid (reach_unknown idempotent).has refl refl refl

probe_decides_example :
    (w' : World MemoryStore ℕ) × (reconcile_once broker calls
        (ambiguous_effect reconcilable)
        (ambiguous reconcilable)
      ≡ (
        ok (
            updated_record
              (updated_record (ambiguous_effect reconcilable) reconciling (pos 0))
              prepared
              (pos 2)),
        w',
      ))
    × Settled broker view laws
        (ambiguous_effect reconcilable)
        (updated_record
          (updated_record (ambiguous_effect reconcilable) reconciling (pos 0))
          prepared
          (pos 2))
        (view.attempts (ambiguous_effect reconcilable).effect_id (ambiguous reconcilable).store)
        0
        (ambiguous reconcilable)
        w'
unfolding new_record updated_record is_allowed route_unknown
probe_decides_example =
    probe_decides broker view laws calls (ambiguous_effect reconcilable)
      (answering a_commit (ok an_absence)) an_absence 0 (ambiguous reconcilable)
      (reach_unknown reconcilable).valid (reach_unknown reconcilable).has refl refl refl refl

redispatch_decides_example :
    (w' : World MemoryStore ℕ) × (reconcile_once broker calls
        (ambiguous_effect idempotent)
        (ambiguous idempotent)
      ≡ (
        ok (
            updated_record
              (updated_record (ambiguous_effect idempotent) dispatching (pos 2))
              succeeded
              (pos 5)),
        w',
      ))
    × Settled broker view laws
        (ambiguous_effect idempotent)
        (updated_record
          (updated_record (ambiguous_effect idempotent) dispatching (pos 2))
          succeeded
          (pos 5))
        (view.attempts (ambiguous_effect idempotent).effect_id (ambiguous idempotent).store + 1)
        1
        (ambiguous idempotent)
        w'
unfolding new_record updated_record is_allowed key_retention_valid ◌+ℤ◌
redispatch_decides_example =
    redispatch_decides broker view laws calls (ambiguous_effect idempotent)
      (answering a_commit (ok an_absence)) a_commit 1 (ambiguous idempotent)
      (reach_unknown idempotent).valid (reach_unknown idempotent).has refl refl refl refl refl

abbrev failing : AdapterFor ℕ
failing = adapters a_commit (err (other_exception (text "TimeoutError")))

failed_probe_strands_example :
    (w' : World MemoryStore ℕ) × (w'' : World MemoryStore ℕ) × (reconcile_once broker failing
        (ambiguous_effect reconcilable)
        (ambiguous reconcilable)
      ≡ (err (other_exception (text "TimeoutError")), w'))
    × Settled broker view laws
        (ambiguous_effect reconcilable)
        (updated_record (ambiguous_effect reconcilable) reconciling (pos 0))
        (view.attempts (ambiguous_effect reconcilable).effect_id (ambiguous reconcilable).store)
        0
        (ambiguous reconcilable)
        w'
    × (reconcile_once broker failing
          (updated_record (ambiguous_effect reconcilable) reconciling (pos 0))
          w'
        ≡ (err (invalid_transition reconciling reconciling), w''))
    × (w''.store ≡ w'.store)
    × (w''.target ≡ w'.target)
unfolding new_record updated_record is_allowed route_unknown
failed_probe_strands_example =
    failed_probe_strands broker view laws failing (ambiguous_effect reconcilable)
      (answering a_commit (err (other_exception (text "TimeoutError"))))
      (other_exception (text "TimeoutError")) 0 (ambiguous reconcilable)
      (reach_unknown reconcilable).valid (reach_unknown reconcilable).has refl refl refl refl

dispatch_once_returns_example :
    (batch results : List EffectRecord) × (s1 : MemoryStore) × (w' : World MemoryStore ℕ)
    × (broker.claim_due (text "w1") (pos 1) (pos 30) (pos 10) (world idempotent).store
        ≡ (ok batch, s1))
    × (dispatch_once broker calls (text "w1") (pos 1) (pos 30) (pos 10) (world idempotent)
        ≡ (ok results, w'))
    × view.Valid w'.store
    × Apart batch
    × All
        (λ x.
          (r : EffectRecord) × (view.find x.effect_id (world idempotent).store ≡ some r)
          × Claimable r.status
          × (x ≡ claimed_record r (pos 1)))
        batch
    × Outcomes batch results
dispatch_once_returns_example =
    dispatch_once_returns broker view laws calls (text "w1") (pos 1) (pos 30) (pos 10)
      (world idempotent) (store-IsValid idempotent)

-- A reconciler that holds another version than the store.
abbrev old_version : EffectRecord
old_version = record (effect idempotent) { version = 7 }

second_reconciler_fails_example :
    (e : Error) × (w' : World MemoryStore ℕ) × (reconcile_once broker calls old_version
        (world idempotent)
      ≡ (err e, w'))
    × (w'.store ≡ (world idempotent).store)
    × (w'.target ≡ (world idempotent).target)
unfolding new_record
second_reconciler_fails_example =
    second_reconciler_fails broker view laws calls old_version (effect idempotent)
      (world idempotent) (store_has idempotent) (inl (λ e. omega (arith, e)))
