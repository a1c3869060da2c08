-- ===== src/Adapters/Simulated/Probes.antt =====
-- What a probe of the simulated target proves (src/effect_broker/adapters/simulated.py).
use effect_broker.Prelude.{
  text, text_eq, ◌≡◌, ◌≢◌, inl, inr, Bool-cases, none, some, [], ◌∷◌, ◌==◌, arith,
}
use effect_broker.Prelude.Dict.{lookup}
use effect_broker.Models.{
  EffectRecord, ProbeResult, committed, not_committed, unknown, unsafe, safety_eq,
}
use effect_broker.Errors.{ok}
use effect_broker.Json.{str}
use effect_broker.Store.Rows.{object}
use effect_broker.Adapters.Simulated.{SimulatedCharge, SimulatedTarget, probe}
use effect_broker.Adapters.Simulated.Target.{probe_charge, probe_absent}
use effect_broker.Adapters.Simulated.Charges.{Deduped, found_first}
use effect_broker.Adapters.Simulated.Once.{HasCharge}

absent_no_commit :
    (effect : EffectRecord) (t : SimulatedTarget) → (probe_charge effect t none).status ≢ committed
unfolding probe_charge probe_absent
absent_no_commit effect t h = ground arith

charge_shown :
    (effect : EffectRecord) (t : SimulatedTarget) (c : SimulatedCharge)
    → ((probe_charge effect t (some c)).status ≡ committed
        → (probe_charge effect t (some c)).external_id ≡ some c.external_id)
      × ((probe_charge effect t (some c)).status ≢ not_committed)
unfolding probe_charge probe_absent
charge_shown effect t c = (λ h. ground arith, λ h. ground arith)

-- A probe of a target is honest: a commit that it shows is a charge for the effect's key, and a
-- commit that it rules out is a key without any charge. It never changes the target.
pub probe_is_honest :
    (effect : EffectRecord) (t : SimulatedTarget)
    → Deduped t
    → (result : ProbeResult) × (probe effect t ≡ (ok result, t))
      × (result.status ≡ committed
          → (c : SimulatedCharge) × HasCharge effect.downstream_key c t
            × (result.external_id ≡ some c.external_id))
      × (result.status ≡ not_committed → lookup effect.downstream_key t.by_downstream_key ≡ none)
unfolding probe
probe_is_honest effect t d = elim (Bool-cases (effect.contract.safety == unsafe)) [
  | inl is_unsafe ↦ (
    record {
      status = unknown;
      external_id = none;
      output = none;
      evidence =
          object ((text "reason", str (text "unsafe target has no authoritative lookup")) ∷ []);
    },
    rw is_unsafe,
    λ h. ground arith,
    λ h. ground arith,
  )
  | inr not_unsafe ↦ elim (found_first t effect.downstream_key d) [
    | inl (missing, none_found) ↦ (
      probe_charge effect t none,
      ground (arith, not_unsafe, none_found),
      λ h. absurd (absent_no_commit effect t h),
      λ _. missing,
    )
    | inr (ids, there, x, found) ↦ (
      probe_charge effect t (some x.charge),
      ground (arith, not_unsafe, found),
      λ h. (x.charge, found, (charge_shown effect t x.charge).0 h),
      λ h. absurd ((charge_shown effect t x.charge).1 h),
    )
  ]
]
