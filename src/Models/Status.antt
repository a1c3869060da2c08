-- ===== src/Models/Status.antt =====
-- The two enumerations of src/effect_broker/models.py, with their values and their equality.
use effect_broker.Prelude.{
  ◌≡◌, ◌↔◌, Bool, true, false, ◌||◌, List, [], ◌∷◌, arith, Text, text, Eq, ◌==◌,
}

pub data SafetyClass : Type 0 where
  transactional idempotent reconcilable unsafe : SafetyClass

pub data EffectStatus : Type 0 where
  prepared cancelled dispatching retryable outcome_unknown : EffectStatus
  reconciling succeeded failed_final manual_review compensated : EffectStatus

unfoldable pub safety_value : SafetyClass → Text
safety_value transactional = text "transactional"
safety_value idempotent = text "idempotent"
safety_value reconcilable = text "reconcilable"
safety_value unsafe = text "unsafe"

unfoldable pub status_value : EffectStatus → Text
status_value prepared = text "prepared"
status_value cancelled = text "cancelled"
status_value dispatching = text "dispatching"
status_value retryable = text "retryable"
status_value outcome_unknown = text "outcome_unknown"
status_value reconciling = text "reconciling"
status_value succeeded = text "succeeded"
status_value failed_final = text "failed_final"
status_value manual_review = text "manual_review"
status_value compensated = text "compensated"

unfoldable pub safety_beq : SafetyClass → SafetyClass → Bool
safety_beq transactional transactional = true
safety_beq idempotent idempotent = true
safety_beq reconcilable reconcilable = true
safety_beq unsafe unsafe = true
safety_beq _ _ = false

pub safety_beq_iff : (a b : SafetyClass) → (safety_beq a b ≡ true) ↔ (a ≡ b)
unfolding safety_beq
safety_beq_iff a b = (λ h. ground arith, λ h. ground arith)

unfoldable pub status_beq : EffectStatus → EffectStatus → Bool
status_beq prepared prepared = true
status_beq cancelled cancelled = true
status_beq dispatching dispatching = true
status_beq retryable retryable = true
status_beq outcome_unknown outcome_unknown = true
status_beq reconciling reconciling = true
status_beq succeeded succeeded = true
status_beq failed_final failed_final = true
status_beq manual_review manual_review = true
status_beq compensated compensated = true
status_beq _ _ = false

pub status_beq_iff : (a b : EffectStatus) → (status_beq a b ≡ true) ↔ (a ≡ b)
unfolding status_beq
status_beq_iff a b = (λ h. ground arith, λ h. ground arith)

instance abbrev pub safety_eq : Eq SafetyClass
safety_eq = record { beq = safety_beq; beq_iff = safety_beq_iff }

instance abbrev pub status_eq : Eq EffectStatus
status_eq = record { beq = status_beq; beq_iff = status_beq_iff }

-- `x in xs`
unfoldable pub contains : EffectStatus → List EffectStatus → Bool
contains s [] = false
contains s (x ∷ xs) = x == s || contains s xs

unfoldable pub terminal_statuses : List EffectStatus
terminal_statuses = cancelled ∷ succeeded ∷ failed_final ∷ compensated ∷ []
