-- ===== src/Store/Memory/Evolves.antt =====
-- How a stored effect may change (src/effect_broker/store/memory.py).
use effect_broker.Prelude.{
  ◌<◌, text_eq, pair_eq, ◌≡◌, ◌≢◌, refl, sym, subst, ◌∙◌, Option, true, false, arith,
}
use effect_broker.Models.{EffectRecord, EffectStatus, Time}
use effect_broker.StateMachine.{is_allowed, is_terminal}
use effect_broker.StateMachine.Graph.{Reach, here, next, Reach-trans, allowed_not_terminal}
use effect_broker.Store.Laws.{Claimable}
use effect_broker.Store.Rows.{updated_record, claimed_record}
use effect_broker.Store.Memory.State.{Lease}
use effect_broker.Store.Memory.Claim.{is_due}

-- How a stored record may change: not at all, or to a higher version by allowed transitions, with
-- everything that was fixed at its reservation kept.
pub data Evolves (r r' : EffectRecord) : Type 0 where
  same : r' ≡ r → Evolves r r'
  moved :
      is_terminal r.status ≡ false
      → r.version < r'.version
      → Reach r.status r'.status
      → r'.effect_id ≡ r.effect_id
      → r'.tenant_id ≡ r.tenant_id
      → r'.request ≡ r.request
      → r'.request_hash ≡ r.request_hash
      → r'.downstream_key ≡ r.downstream_key
      → r'.contract ≡ r.contract
      → r'.created_at ≡ r.created_at
      → Evolves r r'

pub updated-Evolves :
    (r : EffectRecord) (target : EffectStatus) (now : Time)
    → is_allowed r.status target ≡ true
    → Evolves r (updated_record r target now)
unfolding updated_record
updated-Evolves r target now edge =
    moved (allowed_not_terminal r.status target edge) (omega arith) (next here edge) refl refl refl
      refl refl refl refl

pub Evolves-trans : {r q x : EffectRecord} → Evolves r q → Evolves q x → Evolves r x
Evolves-trans {x = x} (same e) b = subst (λ z. Evolves z x) e b
Evolves-trans {r = r} (moved t v w a1 a2 a3 a4 a5 a6 a7) (same e) =
    subst (λ z. Evolves r z) (sym e) (moved t v w a1 a2 a3 a4 a5 a6 a7)
Evolves-trans (moved t v w a1 a2 a3 a4 a5 a6 a7) (moved t' v' w' b1 b2 b3 b4 b5 b6 b7) =
    moved t (omega arith) (Reach-trans w w') (b1 ∙ a1) (b2 ∙ a2) (b3 ∙ a3) (b4 ∙ a4) (b5 ∙ a5)
      (b6 ∙ a6) (b7 ∙ a7)

pub terminal_same : {r r' : EffectRecord} → Evolves r r' → is_terminal r.status ≡ true → r' ≡ r
terminal_same (same e) h = e
terminal_same (moved t v w a1 a2 a3 a4 a5 a6 a7) h = cc

pub version_grows : {r r' : EffectRecord} → Evolves r r' → r' ≢ r → r.version < r'.version
version_grows (same e) h = absurd (h e)
version_grows (moved t v w a1 a2 a3 a4 a5 a6 a7) h = v

due_not_terminal :
    (now : Time) (status : EffectStatus) (lease : Option Lease)
    → is_due now status lease ≡ true
    → is_terminal status ≡ false
unfolding is_due is_terminal
due_not_terminal now status lease h = ground arith

pub claimed-Evolves :
    (r : EffectRecord) (now : Time) (lease : Option Lease)
    → is_due now r.status lease ≡ true
    → Evolves r (claimed_record r now)
unfolding claimed_record
claimed-Evolves r now lease due =
    moved (due_not_terminal now r.status lease due) (omega arith) here refl refl refl refl refl refl
      refl

open_not_terminal : (status : EffectStatus) → Claimable status → is_terminal status ≡ false
unfolding is_terminal
open_not_terminal status h = ground arith

pub claimable-Evolves :
    (r : EffectRecord) (now : Time) → Claimable r.status → Evolves r (claimed_record r now)
unfolding claimed_record
claimable-Evolves r now h =
    moved (open_not_terminal r.status h) (omega arith) here refl refl refl refl refl refl refl
