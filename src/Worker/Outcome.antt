-- ===== src/Worker/Outcome.antt =====
-- What the worker persists for each answer of the target (src/effect_broker/worker.py).
use effect_broker.Prelude.{
  ℕ, Text, text_eq, ◌≡◌, refl, some, true, if◌then◌else◌, arith, Bool-cases, inl, inr,
}
use effect_broker.Prelude.Int.{ℤ, pos, ltb_ℤ}
use effect_broker.Json.{JsonObject}
use effect_broker.Models.{
  EffectRecord, EffectStatus, dispatching, succeeded, outcome_unknown, retryable, failed_final,
  DispatchResult,
}
use effect_broker.Errors.{Error, Result, ok, err, adapter_error}
use effect_broker.Adapters.{EffectAdapter, AdapterFor}
use effect_broker.StateMachine.{is_allowed}
use effect_broker.Store.{EffectStore}
use effect_broker.Store.Laws.{StoreView, StoreLaws}
use effect_broker.Store.Rows.{updated_record, attempt_id_of}
use effect_broker.World.{World, recover}
use effect_broker.Fenced.{transition_and_record, transition_committed, committed_data}
use effect_broker.Fenced.Laws.{Moves, record-Moves}
use effect_broker.Worker.{
  status_after_non_commit, transition_proven_non_commit, transition_ambiguous,
  handle_dispatch_error, persist_result, attempt_dispatch, non_commit_data, unconfirmed_data,
}
use effect_broker.Worker.Ordinal.{attempt_ordinal-attempt_id_of}

-- What the target answers to the one call that the worker makes, and the target after it. Where
-- no adapter is found, no call is made.
pub data Answered {T : Type 0} (adapter_for : AdapterFor T) (effect : EffectRecord)
    (attempt_id : Text) (t : T) : Result DispatchResult → T → Type 0 where
  no_adapter :
      (e : Error) → adapter_for effect ≡ err e → Answered adapter_for effect attempt_id t (err e) t
  called :
      (a : EffectAdapter T) (answer : Result DispatchResult) (t' : T)
      → adapter_for effect ≡ ok a
      → a.dispatch effect attempt_id t ≡ (answer, t')
      → Answered adapter_for effect attempt_id t answer t'

-- The status that an answer to the n-th attempt stands for. Only authoritative evidence is a
-- success, only an adapter's proof of a non-commit is retried or final, and all else is unknown.
abbrev pub verdict : Result DispatchResult → ℕ → ℤ → EffectStatus
verdict (ok result) n retry_limit = if result.committed then succeeded else outcome_unknown
verdict (err (adapter_error _)) n retry_limit =
    if ltb_ℤ (pos n) retry_limit then retryable else failed_final
verdict (err _) n retry_limit = outcome_unknown

verdict_allowed :
    (answer : Result DispatchResult) (n : ℕ) (limit : ℤ)
    → is_allowed dispatching (verdict answer n limit) ≡ true
unfolding is_allowed
verdict_allowed answer n limit = ground arith

module _ {S T : Type 0} (store : EffectStore S) (view : StoreView S) (laws : StoreLaws store view)
    (adapter_for : AdapterFor T) where
  module _ (d : EffectRecord) (attempt_id : Text) (w : World S T) where
    dispatch_fails :
        (e : Error) (t' : T)
        → Answered adapter_for d attempt_id w.target (err e) t'
        → attempt_dispatch store adapter_for d attempt_id w ≡ (err e, record w { target = t' })
    unfolding attempt_dispatch
    dispatch_fails e t' (no_adapter _ h) = ground (arith, h)
    dispatch_fails e t' (called a _ _ h k) = ground (arith, h, k)

    dispatch_answers :
        (result : DispatchResult) (t' : T)
        → Answered adapter_for d attempt_id w.target (ok result) t'
        → attempt_dispatch store adapter_for d attempt_id w
          ≡ persist_result store d attempt_id result (record w { target = t' })
    unfolding attempt_dispatch
    dispatch_answers result t' (called a _ _ h k) = ground (arith, h, k)

  -- The handler of an exception is one transition to the status of the verdict.
  handled :
      (d : EffectRecord) (n : ℕ) (e : Error) (w : World S T)
      → (metadata : JsonObject) × (handle_dispatch_error store d (attempt_id_of d.effect_id n) e w
          ≡ transition_and_record store d (verdict (err e) n d.contract.retry_limit) metadata w)
  unfolding handle_dispatch_error transition_ambiguous transition_proven_non_commit
      status_after_non_commit
  handled d n (adapter_error m) w = (
    non_commit_data (attempt_id_of d.effect_id n) (adapter_error m),
    rw (attempt_ordinal-attempt_id_of d.effect_id n),
  )
  handled d n e w = (_, refl)

  -- So is the persisting of an answer.
  answered :
      (d : EffectRecord) (n : ℕ) (result : DispatchResult) (w : World S T)
      → (metadata : JsonObject) × (persist_result store d (attempt_id_of d.effect_id n) result w
          ≡ transition_and_record store d (verdict (ok result) n d.contract.retry_limit) metadata w)
  unfolding persist_result transition_committed
  answered d n result w = elim (Bool-cases result.committed) [
    | inl yes_it_is ↦ (committed_data (attempt_id_of d.effect_id n) result, rw yes_it_is)
    | inr not_it ↦ (unconfirmed_data (attempt_id_of d.effect_id n), rw not_it)
  ]

  -- From `dispatching`, whatever the target answers, the worker persists the verdict.
  pub finishes :
      (d : EffectRecord) (n : ℕ) (answer : Result DispatchResult) (t' : T) (w : World S T)
      → view.Valid w.store
      → view.find d.effect_id w.store ≡ some d
      → d.status ≡ dispatching
      → Answered adapter_for d (attempt_id_of d.effect_id n) w.target answer t'
      → (w' : World S T) × (recover
            (attempt_dispatch store adapter_for d (attempt_id_of d.effect_id n))
            (handle_dispatch_error store d (attempt_id_of d.effect_id n))
            w
          ≡ (ok (updated_record d (verdict answer n d.contract.retry_limit) (w.clock w.reads)), w'))
        × Moves store view laws d
            (updated_record d (verdict answer n d.contract.retry_limit) (w.clock w.reads))
            (record w { target = t' })
            w'
  finishes d n (ok result) t' w valid found is_dispatching a =
      let (metadata, e) = answered d n result (record w { target = t' }) in
      let (w', moved, m) =
        record-Moves store view laws d (verdict (ok result) n d.contract.retry_limit) metadata
          (record w { target = t' }) valid found
          (rw is_dispatching (verdict_allowed (ok result) n d.contract.retry_limit)) in
      (
        w',
        ground (arith, dispatch_answers d (attempt_id_of d.effect_id n) w result t' a, e, moved),
        m,
      )
  finishes d n (err x) t' w valid found is_dispatching a =
      let (metadata, e) = handled d n x (record w { target = t' }) in
      let (w', moved, m) =
        record-Moves store view laws d (verdict (err x) n d.contract.retry_limit) metadata
          (record w { target = t' }) valid found
          (rw is_dispatching (verdict_allowed (err x) n d.contract.retry_limit)) in
      (w', ground (arith, dispatch_fails d (attempt_id_of d.effect_id n) w x t' a, e, moved), m)
