-- ===== src/Adapters/Protocol.antt =====
-- The adapter protocol (src/effect_broker/adapters/base.py): a target's state is `T`.
use effect_broker.Prelude.{Text}
use effect_broker.Models.{EffectRecord, DispatchResult, ProbeResult}
use effect_broker.Errors.{Result}
use effect_broker.Exec.{Exec}

pub record EffectAdapter (T : Type 0) : Type 0 where
  -- effect, attempt
  pub dispatch : EffectRecord → Text → Exec T DispatchResult
  pub probe : EffectRecord → Exec T ProbeResult

-- `AdapterFor`; the call may raise.
abbrev pub AdapterFor : Type 0 → Type 0
AdapterFor T = EffectRecord → Result (EffectAdapter T)
