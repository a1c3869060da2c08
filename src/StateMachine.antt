-- ===== src/StateMachine.antt =====
-- The pure effect state machine (src/effect_broker/statemachine.py). The proofs are in the
-- modules below.
pub mod Graph
use effect_broker.Prelude.{Bool, ◌||◌, List, [], ◌∷◌, if◌then◌else◌, ◌==◌}
use effect_broker.Models.{
  EffectStatus, prepared, cancelled, dispatching, retryable, outcome_unknown, reconciling,
  succeeded, failed_final, manual_review, compensated, SafetyClass, transactional, idempotent,
  reconcilable, unsafe, safety_eq, safety_beq, status_beq, contains, terminal_statuses,
}
use effect_broker.Errors.{Result, ok, err, invalid_transition}

-- The table `_ALLOWED`.
unfoldable pub allowed : EffectStatus → List EffectStatus
allowed prepared = dispatching ∷ cancelled ∷ []
allowed dispatching = succeeded ∷ failed_final ∷ retryable ∷ outcome_unknown ∷ []
allowed retryable = dispatching ∷ failed_final ∷ cancelled ∷ []
allowed outcome_unknown = dispatching ∷ reconciling ∷ manual_review ∷ []
allowed reconciling = succeeded ∷ prepared ∷ manual_review ∷ failed_final ∷ []
allowed manual_review = succeeded ∷ failed_final ∷ compensated ∷ []
allowed succeeded = []
allowed failed_final = []
allowed compensated = []
allowed cancelled = []

unfoldable pub is_terminal : EffectStatus → Bool
unfolding contains status_beq terminal_statuses
is_terminal status = contains status terminal_statuses

unfoldable pub is_allowed : EffectStatus → EffectStatus → Bool
unfolding contains status_beq allowed
is_allowed current target = contains target (allowed current)

unfoldable pub assert_transition : EffectStatus → EffectStatus → Result (Unit {0})
assert_transition current target =
    if is_allowed current target then ok tt else err (invalid_transition current target)

unfoldable pub route_unknown : SafetyClass → EffectStatus
unfolding safety_beq
route_unknown safety =
    if safety == idempotent
    then dispatching
    else if safety == reconcilable || safety == transactional
    then reconciling
    else manual_review
