-- ===== src/StateMachine/Graph.antt =====
-- Reachability in the transition graph of src/effect_broker/statemachine.py.
use effect_broker.Prelude.{◌≡◌, refl, ◌↔◌, ◌⊎◌, inl, inr, Bool, Bool-cases, true, false, arith}
use effect_broker.Models.{
  EffectStatus, prepared, cancelled, dispatching, retryable, outcome_unknown, reconciling,
  succeeded, failed_final, manual_review, compensated, SafetyClass, transactional, idempotent,
  reconcilable, unsafe,
}
use effect_broker.StateMachine.{is_terminal, is_allowed, route_unknown}

-- A walk of allowed transitions.
pub data Reach (s : EffectStatus) : EffectStatus → Type 0 where
  here : Reach s s
  next : {t u : EffectStatus} → Reach s t → is_allowed t u ≡ true → Reach s u

pub Reach-trans : {s t u : EffectStatus} → Reach s t → Reach t u → Reach s u
Reach-trans a here = a
Reach-trans a (next b e) = next (Reach-trans a b) e

-- A walk that never enters a status of the predicate.
pub data ReachAvoiding (P : EffectStatus → Bool) (s : EffectStatus) : EffectStatus → Type 0 where
  here : ReachAvoiding P s s
  next :
      {t u : EffectStatus}
      → ReachAvoiding P s t
      → is_allowed t u ≡ true
      → P u ≡ false
      → ReachAvoiding P s u

some_exit :
    (s : EffectStatus) → is_terminal s ≡ false → (t : EffectStatus) × (is_allowed s t ≡ true)
unfolding is_terminal is_allowed
some_exit prepared h = (cancelled, refl)
some_exit dispatching h = (succeeded, refl)
some_exit retryable h = (cancelled, refl)
some_exit outcome_unknown h = (manual_review, refl)
some_exit reconciling h = (succeeded, refl)
some_exit manual_review h = (succeeded, refl)
some_exit succeeded h = cc
some_exit failed_final h = cc
some_exit compensated h = cc
some_exit cancelled h = cc

terminal_no_exit : (s t : EffectStatus) → is_terminal s ≡ true → is_allowed s t ≡ false
unfolding is_terminal is_allowed
terminal_no_exit s t h = ground arith

pub allowed_not_terminal : (s t : EffectStatus) → is_allowed s t ≡ true → is_terminal s ≡ false
allowed_not_terminal s t h = ground (arith, terminal_no_exit s t)

sink_is_terminal :
    (s : EffectStatus) → ((t : EffectStatus) → is_allowed s t ≡ false) → is_terminal s ≡ true
sink_is_terminal s h = elim (Bool-cases (is_terminal s)) [
  | inl e ↦ e
  | inr e ↦ let (t, a) = some_exit s e in cc (h t)
]

-- The terminal statuses are exactly those that have no allowed transition.
pub terminal_iff_sink :
    (s : EffectStatus) → (is_terminal s ≡ true) ↔ ((t : EffectStatus) → is_allowed s t ≡ false)
terminal_iff_sink s = (λ h t. terminal_no_exit s t h, sink_is_terminal s)

review_step :
    (t u : EffectStatus)
    → (t ≡ manual_review) ⊎ (is_terminal t ≡ true)
    → is_allowed t u ≡ true
    → (u ≡ manual_review) ⊎ (is_terminal u ≡ true)
unfolding is_terminal is_allowed
review_step t u h e = ground arith

-- Along every walk from manual review an effect is in review or in a terminal status, so an
-- effect under review is never dispatched again.
pub manual_review_closes :
    {t : EffectStatus} → Reach manual_review t → (t ≡ manual_review) ⊎ (is_terminal t ≡ true)
manual_review_closes here = inl refl
manual_review_closes (next {t = t} {u = u} r e) = review_step t u (manual_review_closes r) e

-- The statuses by which a dispatched effect may come to be dispatched again: a proven
-- non-commit, or ambiguity that has been recorded.
unfoldable pub is_verdict : EffectStatus → Bool
is_verdict retryable = true
is_verdict outcome_unknown = true
is_verdict _ = false

verdict_step :
    (t u : EffectStatus)
    → (t ≡ dispatching) ⊎ (t ≡ succeeded) ⊎ (t ≡ failed_final)
    → is_allowed t u ≡ true
    → is_verdict u ≡ false
    → (u ≡ dispatching) ⊎ (u ≡ succeeded) ⊎ (u ≡ failed_final)
unfolding is_allowed is_verdict
verdict_step t u h e v = ground arith

-- A walk from `dispatching` that passes neither `retryable` nor `outcome_unknown` only stays
-- there or ends in `succeeded` or `failed_final`.
pub redispatch_needs_verdict :
    {t : EffectStatus}
    → ReachAvoiding is_verdict dispatching t
    → (t ≡ dispatching) ⊎ (t ≡ succeeded) ⊎ (t ≡ failed_final)
redispatch_needs_verdict here = inl refl
redispatch_needs_verdict (next {t = t} {u = u} r e v) =
    verdict_step t u (redispatch_needs_verdict r) e v

-- From every status some walk leads to a terminal status.
pub reaches_terminal : (s : EffectStatus) → (t : EffectStatus) × Reach s t × (is_terminal t ≡ true)
unfolding is_terminal is_allowed
reaches_terminal prepared = (cancelled, next here refl, refl)
reaches_terminal dispatching = (succeeded, next here refl, refl)
reaches_terminal retryable = (failed_final, next here refl, refl)
reaches_terminal outcome_unknown =
    (compensated, next {t = manual_review} (next here refl) refl, refl)
reaches_terminal reconciling = (succeeded, next here refl, refl)
reaches_terminal manual_review = (compensated, next here refl, refl)
reaches_terminal succeeded = (succeeded, here, refl)
reaches_terminal failed_final = (failed_final, here, refl)
reaches_terminal compensated = (compensated, here, refl)
reaches_terminal cancelled = (cancelled, here, refl)

-- Where an unknown outcome is routed: the transition is always allowed; only the idempotent
-- class is dispatched again, only the two classes with an authority are probed, and the unsafe
-- class goes to an operator.
pub route_unknown_honest :
    (c : SafetyClass)
    → (is_allowed outcome_unknown (route_unknown c) ≡ true)
      × ((route_unknown c ≡ dispatching) ↔ (c ≡ idempotent))
      × ((route_unknown c ≡ reconciling) ↔ ((c ≡ reconcilable) ⊎ (c ≡ transactional)))
      × ((route_unknown c ≡ manual_review) ↔ (c ≡ unsafe))
unfolding is_allowed route_unknown
route_unknown_honest transactional = (
  refl,
  (λ h. ground arith, λ h. ground arith),
  (λ h. inr refl, λ h. refl),
  (λ h. ground arith, λ h. ground arith),
)
route_unknown_honest idempotent = (
  refl,
  (λ h. refl, λ h. refl),
  (λ h. ground arith, λ h. ground arith),
  (λ h. ground arith, λ h. ground arith),
)
route_unknown_honest reconcilable = (
  refl,
  (λ h. ground arith, λ h. ground arith),
  (λ h. inl refl, λ h. refl),
  (λ h. ground arith, λ h. ground arith),
)
route_unknown_honest unsafe = (
  refl,
  (λ h. ground arith, λ h. ground arith),
  (λ h. ground arith, λ h. ground arith),
  (λ h. refl, λ h. refl),
)
