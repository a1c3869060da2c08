-- ===== src/Engine/Cancel.antt =====
-- What a caller may do to an effect by `cancel` and `resolve` of src/effect_broker/engine.py, over
-- any store that keeps the laws.
use effect_broker.Prelude.{
  ℕ, ◌+◌, Text, text, text_eq, ◌≡◌, ◌≢◌, refl, ◌⊎◌, inl, inr, Option, some, [], ◌∷◌, true,
  if◌then◌else◌, ◌==◌, ==_refl, ==_ne, arith, Option-cases,
}
use effect_broker.Json.{str, mapping, JsonObject}
use effect_broker.Models.{
  EffectRecord, EffectStatus, status_beq, contains, cancelled, succeeded, failed_final, compensated,
  manual_review,
}
use effect_broker.Errors.{ok, err, unknown_effect, version_conflict, invalid_transition}
use effect_broker.Contracts.{ContractRegistry}
use effect_broker.Observability.{record_transition}
use effect_broker.StateMachine.{is_allowed}
use effect_broker.Adapters.{AdapterFor}
use effect_broker.Store.{EffectStore}
use effect_broker.Store.Laws.{StoreView, StoreLaws, Claimable}
use effect_broker.Store.Rows.{object, updated_record, visible_to}
use effect_broker.World.{World}
use effect_broker.Fenced.Laws.{Moves}
use effect_broker.Engine.{
  or_unknown, cancellable, is_resolution, check_cancel, check_resolve, get, cancel, resolve,
}

-- The statuses that an operator may settle an effect with.
abbrev pub Resolution : EffectStatus → Type 0
Resolution status = (status ≡ succeeded) ⊎ (status ≡ failed_final) ⊎ (status ≡ compensated)

module _ {S T : Type 0} (store : EffectStore S) (view : StoreView S) (laws : StoreLaws store view)
    (contracts : ContractRegistry) (adapter_for : Option (AdapterFor T)) where
  -- An effect of the tenant.
  abbrev pub Owns : Text → EffectRecord → World S T → Type 0
  Owns tenant_id r w = (view.find r.effect_id w.store ≡ some r) × (r.tenant_id ≡ tenant_id)

  reads_own :
      (tenant_id : Text) (r : EffectRecord) (w : World S T)
      → Owns tenant_id r w
      → get store contracts adapter_for tenant_id r.effect_id w ≡ (ok r, w)
  unfolding get or_unknown visible_to
  reads_own tenant_id r w (found, own) =
      ground (arith, laws.get_lem tenant_id r.effect_id w.store, ==_refl tenant_id)

  cancel_edge : (status : EffectStatus) → Claimable status → is_allowed status cancelled ≡ true
  unfolding is_allowed
  cancel_edge status h = ground (arith, h)

  resolve_edge :
      (status : EffectStatus) → Resolution status → is_allowed manual_review status ≡ true
  unfolding is_allowed
  resolve_edge status h = ground (arith, h)

  reads_nothing :
      (tenant_id effect_id : Text) (w : World S T)
      → ((r : EffectRecord) → view.find effect_id w.store ≡ some r → r.tenant_id ≢ tenant_id)
      → get store contracts adapter_for tenant_id effect_id w ≡ (err (unknown_effect effect_id), w)
  unfolding get or_unknown visible_to
  reads_nothing tenant_id effect_id w foreign = elim (Option-cases (view.find effect_id w.store)) [
    | inl missing ↦ ground (arith, laws.get_lem tenant_id effect_id w.store, missing)
    | inr (r, there) ↦ ground (
      arith,
      laws.get_lem tenant_id effect_id w.store,
      there,
      ==_ne r.tenant_id tenant_id (foreign r there),
    )
  ]

  -- `cancel` goes through for exactly the version that the caller has seen and a status in which
  -- no target call can be running: the effect is then cancelled, and the target was not called.
  pub cancel_cancels :
      (tenant_id : Text) (r : EffectRecord) (actor reason : Text) (w : World S T)
      → view.Valid w.store
      → Owns tenant_id r w
      → Claimable r.status
      → (w' : World S T) × (cancel store contracts adapter_for tenant_id r.effect_id r.version actor
            reason w
          ≡ (ok (updated_record r cancelled (w.clock w.reads)), w'))
        × Moves store view laws r (updated_record r cancelled (w.clock w.reads)) w w'
  unfolding cancel check_cancel cancellable contains status_beq
  cancel_cancels tenant_id r actor reason w valid own claimable =
      let (s', e, valid', found, attempts) =
        laws.transition_allowed r.effect_id r.version cancelled
          (object ((text "actor", str actor) ∷ (text "reason", str reason) ∷ [])) (w.clock w.reads)
          w.store r valid own.0 refl (cancel_edge r.status claimable) in
      (
        record w {
          store = s';
          reads = w.reads + 1 + 1;
          metrics =
              record_transition r (updated_record r cancelled (w.clock w.reads))
                (w.clock (w.reads + 1)) w.metrics;
        },
        ground (arith, reads_own tenant_id r w own, e, claimable),
        record {
          valid = valid';
          found = found;
          same_attempts = attempts;
          same_target = refl;
          same_clock = refl;
          two_reads = refl;
        },
      )

  -- `cancel` is refused, and nothing changes, where the caller has seen another version, and where
  -- the effect is in any other status.
  pub cancel_is_refused :
      (tenant_id : Text) (r : EffectRecord) (seen_version : ℕ) (actor reason : Text) (w : World S T)
      → Owns tenant_id r w
      → (r.version ≢ seen_version
          → cancel store contracts adapter_for tenant_id r.effect_id seen_version actor reason w
            ≡ (err (version_conflict r.effect_id seen_version r.version), w))
        × (r.version ≡ seen_version
            → ¬ Claimable r.status
            → cancel store contracts adapter_for tenant_id r.effect_id seen_version actor reason w
              ≡ (err (invalid_transition r.status cancelled), w))
  unfolding cancel check_cancel cancellable contains status_beq
  cancel_is_refused tenant_id r seen_version actor reason w own = (
    λ other. ground (arith, reads_own tenant_id r w own),
    λ same not_claimable. ground (arith, reads_own tenant_id r w own),
  )

  -- `resolve` settles an effect under review, and only as succeeded, failed or compensated; in
  -- every other case it is refused and nothing changes. The target is never called.
  pub resolve_settles_reviews :
      (tenant_id : Text) (r : EffectRecord) (resolution : EffectStatus) (evidence : JsonObject)
      (w : World S T)
      → view.Valid w.store
      → Owns tenant_id r w
      → (r.status ≡ manual_review
          → Resolution resolution
          → (s' : S) × (resolve store contracts adapter_for tenant_id r.effect_id resolution
                evidence w
              ≡ (
                ok (updated_record r resolution (w.clock w.reads)),
                record w { store = s'; reads = w.reads + 1 },
              ))
            × view.Valid s'
            × ((j : Text)
                → view.find j s' ≡ (
                    if r.effect_id == j
                    then some (updated_record r resolution (w.clock w.reads))
                    else view.find j w.store)))
        × ((r.status ≢ manual_review) ⊎ (¬ Resolution resolution)
            → resolve store contracts adapter_for tenant_id r.effect_id resolution evidence w
              ≡ (err (invalid_transition r.status resolution), w))
  unfolding resolve check_resolve is_resolution contains status_beq
  resolve_settles_reviews tenant_id r resolution evidence w valid own = (
    λ review settles.
        let (s', e, valid', found, _) =
          laws.transition_allowed r.effect_id r.version resolution
            (object
              ((text "evidence", mapping evidence) ∷ (text "actor", str (text "operator")) ∷ []))
            (w.clock w.reads) w.store r valid own.0 refl
            (rw review (resolve_edge resolution settles)) in
        (s', ground (arith, reads_own tenant_id r w own, e, review, settles), valid', found),
    λ no. ground (arith, reads_own tenant_id r w own, no),
  )

  -- To another tenant, and where there is no such effect, the effect does not exist: no operation
  -- on it tells more than that, and none changes anything.
  pub tenants_are_apart :
      (tenant_id effect_id : Text) (w : World S T)
      → ((r : EffectRecord) → view.find effect_id w.store ≡ some r → r.tenant_id ≢ tenant_id)
      → (get store contracts adapter_for tenant_id effect_id w
          ≡ (err (unknown_effect effect_id), w))
        × ((version : ℕ) (actor reason : Text)
            → cancel store contracts adapter_for tenant_id effect_id version actor reason w
              ≡ (err (unknown_effect effect_id), w))
        × ((resolution : EffectStatus) (evidence : JsonObject)
            → resolve store contracts adapter_for tenant_id effect_id resolution evidence w
              ≡ (err (unknown_effect effect_id), w))
  unfolding cancel resolve
  tenants_are_apart tenant_id effect_id w foreign =
      let hidden = reads_nothing tenant_id effect_id w foreign in
      (
        hidden,
        λ version actor reason. ground (arith, hidden),
        λ resolution evidence. ground (arith, hidden),
      )
