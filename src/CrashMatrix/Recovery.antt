-- ===== src/CrashMatrix/Recovery.antt =====
-- `reconcile_once` (src/effect_broker/reconcile.py) on an effect that the target of
-- examples/crash_matrix/target.py has committed and whose outcome the broker does not know.
use effect_broker.Prelude.{ℕ, ◌+◌, ◌<◌, Text, text_eq, ◌≡◌, ◌≢◌, refl, subst, ap, some, true, arith}
use effect_broker.Models.{
  EffectRecord, EffectStatus, SafetyClass, idempotent, transactional, reconcilable, unsafe,
  dispatching, outcome_unknown, reconciling, succeeded, manual_review,
}
use effect_broker.Errors.{ok}
use effect_broker.Platform.{Platform}
use effect_broker.Canonical.{canonical_json}
use effect_broker.StateMachine.{is_allowed, route_unknown}
use effect_broker.Store.{EffectStore}
use effect_broker.Store.Laws.{StoreView, StoreLaws}
use effect_broker.Store.Rows.{updated_record, attempt_id_of}
use effect_broker.World.{World}
use effect_broker.Reconcile.{key_retention_valid, reconcile_once}
use effect_broker.Reconcile.Redispatch.{redispatched, redispatch_decides}
use effect_broker.Reconcile.Answers.{probing, probe_verdict, probe_decides}
use effect_broker.Reconcile.Routes.{unsafe_goes_to_review}
use effect_broker.CrashMatrix.{
  TargetCommit, DurableTarget, select_by_key, payload_of, target_dispatch, adapter_probe,
  durable_adapter,
}
use effect_broker.CrashMatrix.Commits.{IsValid, called}
use effect_broker.CrashMatrix.Redispatch.{result_of, recommit_finds, dispatched, probe_shows}
use effect_broker.CrashMatrix.Held.{Held, Settled-Held, Moves-Held}

-- What becomes of an effect of the class.
abbrev pub recovered_status : SafetyClass → EffectStatus
recovered_status unsafe = manual_review
recovered_status _ = succeeded

abbrev pub tries_after : SafetyClass → ℕ → ℕ
tries_after idempotent tries = tries + 1
tries_after _ tries = tries

abbrev pub target_after_recovery :
    Platform → SafetyClass → Text → Text → DurableTarget → DurableTarget
target_after_recovery p idempotent key json t = called p key json t
target_after_recovery p _ key json t = t

module _ {S : Type 0} (store : EffectStore S) (view : StoreView S) (laws : StoreLaws store view)
    (p : Platform) (u : EffectRecord) (tries : ℕ) (w : World S DurableTarget) where
  -- The reconciler returns the effect in this status, a later version of the same effect, with
  -- `tries'` attempts on record and the target `t'`.
  pub record Recovered (status : EffectStatus) (tries' : ℕ) (t' : DurableTarget)
      (final : EffectRecord) (w' : World S DurableTarget) : Type 0 where
    pub returns : reconcile_once store (λ _. ok (durable_adapter p)) u w ≡ (ok final, w')
    pub held : Held store view laws final tries' w'.store
    pub ends : final.status ≡ status
    pub newer : u.version < final.version
    pub target_after : w'.target ≡ t'
    pub same_id : final.effect_id ≡ u.effect_id
    pub same_tenant : final.tenant_id ≡ u.tenant_id
    pub same_key : final.downstream_key ≡ u.downstream_key
    pub same_contract : final.contract ≡ u.contract

  module _ (held : Held store view laws u tries w.store) (lost : u.status ≡ outcome_unknown) where
    may_go :
        (target : EffectStatus)
        → is_allowed outcome_unknown target ≡ true
        → is_allowed u.status target ≡ true
    may_go target edge = rw lost edge

    -- An unsafe effect goes to review.
    recovers_unsafe :
        u.contract.safety ≡ unsafe
        → (final : EffectRecord) × (w' : World S DurableTarget) × Recovered manual_review tries
            w.target final w'
    unfolding is_allowed updated_record
    recovers_unsafe is_unsafe =
        let (w', reviewed, m) =
          unsafe_goes_to_review store view laws (λ _. ok (durable_adapter p)) u w held.valid
            held.found is_unsafe (may_go manual_review refl) in
        (
          updated_record u manual_review (w.clock w.reads),
          w',
          record {
            returns = reviewed;
            held = Moves-Held store view laws refl held m;
            ends = refl;
            newer = omega arith;
            target_after = m.same_target;
            same_id = refl;
            same_tenant = refl;
            same_key = refl;
            same_contract = refl;
          },
        )

    module _ (row : TargetCommit) (there : select_by_key u.downstream_key w.target ≡ some row) where
      -- The authority shows the commit.
      recovers_by_probe :
          u.contract.safety ≢ unsafe
          → route_unknown u.contract.safety ≡ reconciling
          → (final : EffectRecord) × (w' : World S DurableTarget) × Recovered succeeded tries
              w.target final w'
      unfolding is_allowed updated_record durable_adapter
      recovers_by_probe probes asks =
          let result =
            adapter_probe (probing store view laws (λ _. ok (durable_adapter p)) u w) w.target in
          let (w', probed, st) =
            probe_decides store view laws (λ _. ok (durable_adapter p)) u (durable_adapter p) result
              w.target w held.valid held.found asks (may_go reconciling refl) refl refl in
          let shows =
            probe_shows p (probing store view laws (λ _. ok (durable_adapter p)) u w) row w.target
              there probes in
          let final =
            updated_record (probing store view laws (λ _. ok (durable_adapter p)) u w)
              (probe_verdict result.status) (w.clock (w.reads + 2)) in
          (
            final,
            w',
            record {
              returns = probed;
              held =
                  subst (λ n. Held store view laws final n w'.store) held.tried
                    (Settled-Held store view laws refl st);
              ends = ap probe_verdict shows.0;
              newer = omega arith;
              target_after = st.target_after;
              same_id = refl;
              same_tenant = refl;
              same_key = refl;
              same_contract = refl;
            },
          )

      module _ (valid : IsValid w.target) (json : Text)
          (prints : canonical_json (payload_of u) ≡ ok json) where
        -- The key is live, and the target finds the commit.
        recovers_by_key :
            u.contract.safety ≡ idempotent
            → key_retention_valid u (w.clock (w.reads + 1)) ≡ true
            → (final : EffectRecord) × (w' : World S DurableTarget) × Recovered succeeded
                (tries + 1)
                (called p u.downstream_key json w.target)
                final
                w'
        unfolding is_allowed updated_record durable_adapter payload_of
        recovers_by_key is_idempotent live =
            let done =
              recommit_finds p u.downstream_key (payload_of u) json row w.target valid prints
                there in
            let d = updated_record u dispatching (w.clock (w.reads + 2)) in
            let attempt_id = attempt_id_of u.effect_id (view.attempts u.effect_id w.store + 1) in
            let t' = called p u.downstream_key json w.target in
            let answers : target_dispatch p d attempt_id w.target
                ≡ (ok (result_of row.external_id), t') =
              dispatched p d attempt_id row.external_id w.target t' done in
            let (w', sent, st) =
              redispatch_decides store view laws (λ _. ok (durable_adapter p)) u (durable_adapter p)
                (ok (result_of row.external_id)) t' w held.valid held.found is_idempotent live
                (may_go dispatching refl) refl answers in
            let final =
              redispatched store view laws (λ _. ok (durable_adapter p)) u
                (ok (result_of row.external_id)) w in
            (
              final,
              w',
              record {
                returns = sent;
                held =
                    subst (λ n. Held store view laws final (n + 1) w'.store) held.tried
                      (Settled-Held store view laws refl st);
                ends = refl;
                newer = omega arith;
                target_after = st.target_after;
                same_id = refl;
                same_tenant = refl;
                same_key = refl;
                same_contract = refl;
              },
            )

      -- An effect of outcome unknown that a valid durable target has committed, and whose payload
      -- has a canonical form, is recovered by one reconciliation, over any lawful store: unless it is unsafe it is then succeeded, an unsafe
      -- one is under review; the target has the same rows as before, and was called once more for
      -- an idempotent effect, whose key is live, and not at all for the others.
      pub committed_effect_recovers :
          (valid : IsValid w.target) (json : Text)
          → canonical_json (payload_of u) ≡ ok json
          → (u.contract.safety ≡ idempotent → key_retention_valid u (w.clock (w.reads + 1)) ≡ true)
          → (final : EffectRecord) × (w' : World S DurableTarget) × Recovered
              (recovered_status u.contract.safety)
              (tries_after u.contract.safety tries)
              (target_after_recovery p u.contract.safety u.downstream_key json w.target)
              final
              w'
      unfolding route_unknown
      committed_effect_recovers valid json prints live = by_class u.contract.safety refl
        where
          by_class :
              (c : SafetyClass)
              → u.contract.safety ≡ c
              → (final : EffectRecord) × (w' : World S DurableTarget) × Recovered
                  (recovered_status c)
                  (tries_after c tries)
                  (target_after_recovery p c u.downstream_key json w.target)
                  final
                  w'
          by_class idempotent e = recovers_by_key valid json prints e (live e)
          by_class transactional e = recovers_by_probe (λ h. cc (h, e)) (ap route_unknown e)
          by_class reconcilable e = recovers_by_probe (λ h. cc (h, e)) (ap route_unknown e)
          by_class unsafe e = recovers_unsafe e
