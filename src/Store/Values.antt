-- ===== src/Store/Values.antt =====
-- The members of the two enumerations by their values, as the stores read them from a column:
-- `EffectStatus(…)` and `SafetyClass(…)` of src/effect_broker/models.py.
use effect_broker.Prelude.{
  ◌≡◌, refl, Text, text, text_eq, list_beq, ◌==◌, List, [], ◌∷◌, if◌then◌else◌,
}
use effect_broker.Models.{
  EffectStatus, prepared, cancelled, dispatching, retryable, outcome_unknown, reconciling,
  succeeded, failed_final, manual_review, compensated, status_value, SafetyClass, transactional,
  idempotent, reconcilable, unsafe, safety_value,
}
use effect_broker.Errors.{Result, ok, err, other_exception}

-- `EffectStatus(value)`: the member with this value.
unfoldable pub status_named : Text → List EffectStatus → Result EffectStatus
status_named name [] = err (other_exception (text "ValueError"))
status_named name (x ∷ xs) = if status_value x == name then ok x else status_named name xs

unfoldable pub effect_status : Text → Result EffectStatus
effect_status name = status_named name (
    prepared ∷ cancelled ∷ dispatching ∷ retryable ∷ outcome_unknown ∷ reconciling ∷ succeeded
    ∷ failed_final ∷ manual_review ∷ compensated ∷ [])

-- `SafetyClass(value)`
unfoldable pub safety_named : Text → List SafetyClass → Result SafetyClass
safety_named name [] = err (other_exception (text "ValueError"))
safety_named name (x ∷ xs) = if safety_value x == name then ok x else safety_named name xs

unfoldable pub safety_class : Text → Result SafetyClass
safety_class name = safety_named name (transactional ∷ idempotent ∷ reconcilable ∷ unsafe ∷ [])

pub effect_status-status_value : (s : EffectStatus) → effect_status (status_value s) ≡ ok s
unfolding effect_status status_named status_value text list_beq
effect_status-status_value prepared = refl
effect_status-status_value cancelled = refl
effect_status-status_value dispatching = refl
effect_status-status_value retryable = refl
effect_status-status_value outcome_unknown = refl
effect_status-status_value reconciling = refl
effect_status-status_value succeeded = refl
effect_status-status_value failed_final = refl
effect_status-status_value manual_review = refl
effect_status-status_value compensated = refl

pub safety_class-safety_value : (s : SafetyClass) → safety_class (safety_value s) ≡ ok s
unfolding safety_class safety_named safety_value text list_beq
safety_class-safety_value transactional = refl
safety_class-safety_value idempotent = refl
safety_class-safety_value reconcilable = refl
safety_class-safety_value unsafe = refl
