-- ===== src/Worker/Loop.antt =====
-- The loop of `dispatch_once` (src/effect_broker/worker.py) over all effects of a claim, over any
-- store that keeps the laws.
use effect_broker.Prelude.{
  ℕ, ◌+◌, Text, text_eq, ◌≡◌, ◌≢◌, refl, sym, ap, subst, ◌∙◌, some, List, [], ◌∷◌, ◌++◌, All,
  All-map, true, ==_ne, arith,
}
use mathlib.Core.List.{append_assoc, append-nil}
use effect_broker.Prelude.Int.{ℤ}
use effect_broker.Models.{EffectRecord, EffectStatus, dispatching, DispatchResult, Time, Duration}
use effect_broker.Errors.{Result, ok, err}
use effect_broker.Adapters.{EffectAdapter, AdapterFor}
use effect_broker.StateMachine.{is_allowed}
use effect_broker.Store.{EffectStore}
use effect_broker.Store.Laws.{StoreView, StoreLaws, Claimable, Apart}
use effect_broker.Store.Rows.{updated_record, claimed_record, attempt_id_of}
use effect_broker.World.{World}
use effect_broker.Fenced.Attempt.{in_flight, Settled}
use effect_broker.Worker.{dispatch_effect, dispatch_all, dispatch_once}
use effect_broker.Worker.Outcome.{Answered, no_adapter, called, verdict}
use effect_broker.Worker.Round.{persisted, dispatch_effect_finishes}

-- A result of a round on the claimed effect: it is the same effect, two versions later, with a
-- verdict of some answer.
pub record Outcome (effect result : EffectRecord) : Type 0 where
  pub same_effect : result.effect_id ≡ effect.effect_id
  pub two_versions : result.version ≡ effect.version + 2
  pub judged :
      (answer : Result DispatchResult) × (n : ℕ) × (result.status
        ≡ verdict answer n effect.contract.retry_limit)

-- The results of a batch, in its order.
abbrev pub Outcomes : List EffectRecord → List EffectRecord → Type 0
Outcomes [] [] = Unit
Outcomes (effect ∷ effects) (result ∷ results) = Outcome effect result × Outcomes effects results
Outcomes _ _ = ⊥

pub Claimable-edge :
    (status : EffectStatus) → Claimable status → is_allowed status dispatching ≡ true
unfolding is_allowed
Claimable-edge status h = ground (arith, h)

module _ {S T : Type 0} (store : EffectStore S) (view : StoreView S) (laws : StoreLaws store view)
    (adapter_for : AdapterFor T) (worker_id : Text) where
  -- The target answers something to every call.
  some_answer :
      (d : EffectRecord) (attempt_id : Text) (t : T) (found : Result (EffectAdapter T))
      → adapter_for d ≡ found
      → (answer : Result DispatchResult) × (t' : T) × Answered adapter_for d attempt_id t answer t'
  some_answer d attempt_id t (ok a) h =
      ((a.dispatch d attempt_id t).0, (a.dispatch d attempt_id t).1, called a _ _ h refl)
  some_answer d attempt_id t (err e) h = (err e, t, no_adapter e h)

  -- An effect that is current and can be claimed.
  abbrev Current : World S T → EffectRecord → Type 0
  Current w effect = (view.find effect.effect_id w.store ≡ some effect) × Claimable effect.status

  -- One round.
  round :
      (effect : EffectRecord) (w : World S T)
      → view.Valid w.store
      → Current w effect
      → (result : EffectRecord) × (w' : World S T) × (tries : ℕ) × (t' : T) × (dispatch_effect store
            adapter_for worker_id effect w
          ≡ (ok result, w'))
        × Outcome effect result
        × Settled store view laws effect result tries t' w w'
  unfolding updated_record
  round effect w valid (current, claimable) =
      let n = view.attempts effect.effect_id w.store + 1 in
      let d = in_flight store view laws effect w in
      let (answer, t', a) =
        some_answer d (attempt_id_of effect.effect_id n) w.target (adapter_for d) refl in
      let (w', returns, st) =
        dispatch_effect_finishes store view laws adapter_for worker_id effect answer t' w valid
          current (Claimable-edge effect.status claimable) a in
      (
        persisted store view laws adapter_for worker_id effect w answer n,
        w',
        n,
        t',
        returns,
        record { same_effect = refl; two_versions = omega arith; judged = (answer, n, refl) },
        st,
      )

  -- The effects that are still ahead stay current.
  still-Current :
      {effect result : EffectRecord} {tries : ℕ} {t' : T} {w w' : World S T}
      (effects : List EffectRecord)
      → Settled store view laws effect result tries t' w w'
      → All (λ y. effect.effect_id ≢ y.effect_id) effects
      → All (Current w) effects
      → All (Current w') effects
  still-Current [] st apart current = tt
  still-Current {effect = effect} (y ∷ effects) st apart current = (
    (
      st.found y.effect_id ∙ rw (==_ne effect.effect_id y.effect_id apart.0) current.0.0,
      current.0.1,
    ),
    still-Current effects st apart.1 current.1,
  )

  -- The loop over a batch returns one outcome for each of its effects, in order.
  loop :
      (effects done : List EffectRecord) (w : World S T)
      → view.Valid w.store
      → Apart effects
      → All (Current w) effects
      → (results : List EffectRecord) × (w' : World S T) × (dispatch_all store adapter_for worker_id
            effects done w
          ≡ (ok (done ++ results), w'))
        × view.Valid w'.store
        × Outcomes effects results
  unfolding dispatch_all
  loop [] done w valid apart current = ([], w, rw append-nil, valid, tt)
  loop (effect ∷ effects) done w valid apart current =
      let (result, w1, _, _, returns, outcome, st) = round effect w valid current.0 in
      let (results, w', goes_on, valid', outcomes) =
        loop effects (done ++ result ∷ []) w1 st.valid apart.1
          (still-Current effects st apart.0 current.1) in
      (
        result ∷ results,
        w',
        ground (arith, returns, goes_on, append_assoc done (result ∷ []) results),
        valid',
        (outcome, outcomes),
      )

  pub dispatch_once_returns :
      (now : Time) (lease_for : Duration) (limit : ℤ) (w : World S T)
      → view.Valid w.store
      → (batch results : List EffectRecord) × (s1 : S) × (w' : World S T) × (store.claim_due
            worker_id now lease_for limit w.store
          ≡ (ok batch, s1))
        × (dispatch_once store adapter_for worker_id now lease_for limit w ≡ (ok results, w'))
        × view.Valid w'.store
        × Apart batch
        × All
            (λ x.
              (r : EffectRecord) × (view.find x.effect_id w.store ≡ some r)
              × Claimable r.status
              × (x ≡ claimed_record r now))
            batch
        × Outcomes batch results
  unfolding dispatch_once claimed_record
  dispatch_once_returns now lease_for limit w valid =
      let (s1, batch, claims, valid1, _, _, taken, apart) =
        laws.claim_lem worker_id now lease_for limit w.store valid in
      let w1 : World S T = record w { store = s1 } in
      let current : All (Current w1) batch =
        All-map _ _ batch
          (λ x (r, found, claimable, e, stored).
            (stored, subst Claimable (sym (ap (λ (z : EffectRecord). z.status) e)) claimable))
          taken in
      let (results, w', returns, valid', outcomes) = loop batch [] w1 valid1 apart current in
      (
        batch,
        results,
        s1,
        w',
        claims,
        ground (arith, claims, returns),
        valid',
        apart,
        All-map _ _ batch (λ x (r, found, claimable, e, _). (r, found, claimable, e)) taken,
        outcomes,
      )
