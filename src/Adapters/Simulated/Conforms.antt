-- ===== src/Adapters/Simulated/Conforms.antt =====
-- The simulated adapter passes the conformance checks (src/effect_broker/adapters/simulated.py
-- against src/effect_broker/adapters/base.py).
use effect_broker.Prelude.{
  Text, text, text_eq, ◌≡◌, ◌≢◌, ap, true, false, none, some, [], ◌∷◌, ◌++◌, length, length-append,
  ◌==◌, ==_refl, arith,
}
use effect_broker.Prelude.Dict.{lookup}
use effect_broker.Json.{str}
use effect_broker.Models.{EffectRecord, DispatchResult, SafetyClass, unsafe, safety_beq, safety_eq}
use effect_broker.Errors.{ok, err, adapter_error}
use effect_broker.Store.Rows.{object}
use effect_broker.Adapters.Conformance.{
  stable_key_reuse, payload_drift_rejection, positive_probe, dispatch_drifted, drifted, assert_that,
  same_id, probe_status_is, drift_outcome,
}
use effect_broker.Adapters.Simulated.Target.{
  SimulatedCharge, SimulatedTarget, first_by_downstream_key, dedupes, answer, dispatch, probe,
  probe_charge, simulated_adapter, ids_for_key, first_charge,
}
use effect_broker.Adapters.Simulated.Charges.{
  Deduped, made, after, counted, counted-Deduped, after-Deduped, first_after, charges_first,
  finds_charge, refuses_drift, commits,
}

-- The result that reports a charge.
abbrev result_of : SimulatedCharge → DispatchResult
result_of charge = record {
  external_id = some charge.external_id;
  output = object ((text "external_id", str charge.external_id) ∷ []);
  committed = true;
}

none_first :
    (t : SimulatedTarget) (key : Text)
    → lookup key t.by_downstream_key ≡ none
    → first_by_downstream_key key t ≡ ok none
unfolding first_by_downstream_key ids_for_key first_charge
none_first t key missing = rw missing

not_unsafe : (safety : SafetyClass) → dedupes safety ≡ true → (safety == unsafe) ≡ false
unfolding dedupes safety_beq
not_unsafe safety h = ground arith

drift_differs : (h : Text) → h ≢ h ++ text "-drift"
unfolding text
drift_differs h e = omega (arith, ap length e, length-append h (text "-drift"))

module _ (effect : EffectRecord) (t : SimulatedTarget) (d : Deduped t)
    (honours : dedupes effect.contract.safety ≡ true)
    (free : lookup effect.downstream_key t.by_downstream_key ≡ none)
    (quiet : t.lose_next_response_after_commit ≡ false) where
  abbrev charge : SimulatedCharge
  charge = made effect (counted effect t)

  abbrev charged : SimulatedTarget
  charged = after effect (counted effect t)

  charged-Deduped : Deduped charged
  charged-Deduped = after-Deduped effect (counted effect t) (counted-Deduped effect t d) free

  first_call : (attempt_id : Text) → dispatch effect attempt_id t ≡ (ok (result_of charge), charged)
  unfolding dispatch answer
  first_call attempt_id = elim (commits effect t d) [
    | charges_first _ e ↦ ground (arith, e, honours, quiet)
    | finds_charge c found _ e ↦ ground (arith, found, none_first t effect.downstream_key free)
    | refuses_drift c found _ e ↦ ground (arith, found, none_first t effect.downstream_key free)
  ]

  second_call :
      (attempt_id : Text)
      → dispatch effect attempt_id charged ≡ (ok (result_of charge), counted effect charged)
  unfolding dispatch answer
  second_call attempt_id = elim (commits effect charged charged-Deduped) [
    | charges_first missing _ ↦ ground (
      arith,
      none_first charged effect.downstream_key missing,
      first_after effect (counted effect t),
    )
    | finds_charge c found _ e ↦
        ground (arith, e, honours, quiet, found, first_after effect (counted effect t))
    | refuses_drift c found other _ ↦
        ground (arith, found, other, first_after effect (counted effect t))
  ]

  drift_call :
      (attempt_id : Text)
      → (m : Text) × (dispatch (drifted effect) attempt_id charged
          ≡ (err (adapter_error m), counted effect charged))
  unfolding dispatch drifted
  drift_call attempt_id = elim (commits (drifted effect) charged charged-Deduped) [
    | charges_first missing _ ↦ absurd (
        ground (
          arith,
          none_first charged effect.downstream_key missing,
          first_after effect (counted effect t),
        ))
    | finds_charge c found same _ ↦ absurd (
        drift_differs effect.request_hash
          (ground (arith, found, same, first_after effect (counted effect t))))
    | refuses_drift c found other e ↦
        (text "target rejected payload drift for reused key", ground (arith, e, honours))
  ]

  -- On a target that has no charge for the key and is about to lose no answer, the simulated
  -- adapter of a deduplicating class passes the checks for reuse of the stable key and for the
  -- rejection of another payload, and, where commits are not hidden, the check for a positive probe.
  pub passes_conformance :
      ((stable_key_reuse simulated_adapter effect t).0 ≡ ok tt)
      × ((payload_drift_rejection simulated_adapter effect t).0 ≡ ok tt)
      × (t.hide_commits_until_settled ≡ false
          → (positive_probe simulated_adapter effect t).0 ≡ ok tt)
  unfolding stable_key_reuse payload_drift_rejection positive_probe simulated_adapter
      dispatch_drifted assert_that same_id probe_status_is drift_outcome probe probe_charge
  passes_conformance =
      let (m, drift) = drift_call (text "attempt-2") in
      (
        ground (
          arith,
          first_call (text "attempt-1"),
          second_call (text "attempt-2"),
          ==_refl charge.external_id,
        ),
        ground (arith, first_call (text "attempt-1"), drift),
        λ shown. ground (
          arith,
          first_call (text "attempt-1"),
          first_after effect (counted effect t),
          shown,
          ==_refl charge.external_id,
          not_unsafe effect.contract.safety honours,
        ),
      )
