-- ===== src/Adapters/Conformance.antt =====
-- `AdapterConformance` of src/effect_broker/adapters/base.py. A check returns, or it raises what
-- its calls raise or an AssertionError.
use effect_broker.Prelude.{
  Text, text, text_eq, Bool, true, false, Option, none, some, ◌++◌, if◌then◌else◌, ◌==◌,
}
use effect_broker.Models.{
  EffectRecord, DispatchResult, ProbeStatus, committed, not_committed, unknown,
}
use effect_broker.Errors.{Result, ok, err, adapter_error, other_exception}
use effect_broker.Exec.{Exec, lift, ◌>>=◌, ◌>>◌}
use effect_broker.Adapters.Protocol.{EffectAdapter}

-- `assert condition`
unfoldable pub assert_that : Bool → Result (Unit {0})
assert_that condition = if condition then ok tt else err (other_exception (text "AssertionError"))

unfoldable pub same_id : Option Text → Option Text → Bool
same_id none none = true
same_id (some a) (some b) = a == b
same_id _ _ = false

unfoldable pub probe_status_is : ProbeStatus → ProbeStatus → Bool
probe_status_is committed committed = true
probe_status_is not_committed not_committed = true
probe_status_is unknown unknown = true
probe_status_is _ _ = false

-- `replace(effect, request_hash=f"{effect.request_hash}-drift")`
unfoldable pub drifted : EffectRecord → EffectRecord
drifted effect = record effect { request_hash = effect.request_hash ++ text "-drift" }

-- `except AdapterError: return`, and an AssertionError where nothing was raised
unfoldable pub drift_outcome : Result DispatchResult → Result (Unit {0})
drift_outcome (ok _) = err (other_exception (text "AssertionError"))
drift_outcome (err (adapter_error _)) = ok tt
drift_outcome (err e) = err e

module _ {T : Type 0} (adapter : EffectAdapter T) (effect : EffectRecord) where
  unfoldable pub stable_key_reuse : Exec T (Unit {0})
  unfolding assert_that same_id
  stable_key_reuse = do
    first ← adapter.dispatch effect (text "attempt-1")
    second ← adapter.dispatch effect (text "attempt-2")
    lift (assert_that first.committed)
    lift (assert_that second.committed)
    lift (assert_that (same_id first.external_id second.external_id))

  -- The second dispatch of `payload_drift_rejection`, whose exceptions are values here.
  unfoldable pub dispatch_drifted : Exec T (Result DispatchResult)
  unfolding drifted
  dispatch_drifted t =
      let (r, t') = adapter.dispatch (drifted effect) (text "attempt-2") t in (ok r, t')

  unfoldable pub payload_drift_rejection : Exec T (Unit {0})
  unfolding drift_outcome
  payload_drift_rejection = do
    adapter.dispatch effect (text "attempt-1")
    outcome ← dispatch_drifted
    lift (drift_outcome outcome)

  unfoldable pub positive_probe : Exec T (Unit {0})
  unfolding assert_that same_id probe_status_is
  positive_probe = do
    dispatched ← adapter.dispatch effect (text "attempt-1")
    found ← adapter.probe effect
    lift (assert_that dispatched.committed)
    lift (assert_that (probe_status_is found.status committed))
    lift (assert_that (same_id found.external_id dispatched.external_id))

  unfoldable pub negative_probe : Exec T (Unit {0})
  unfolding assert_that probe_status_is
  negative_probe = do
    found ← adapter.probe effect
    lift (assert_that (probe_status_is found.status not_committed))

  unfoldable pub unknown_probe : Exec T (Unit {0})
  unfolding assert_that probe_status_is
  unknown_probe = do
    found ← adapter.probe effect
    lift (assert_that (probe_status_is found.status unknown))
