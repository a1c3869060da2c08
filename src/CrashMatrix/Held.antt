-- ===== src/CrashMatrix/Held.antt =====
-- One effect in a store that keeps the laws (src/effect_broker/store/base.py), and what a settled
-- effect of the reconciler leaves of it.
use effect_broker.Prelude.{ℕ, text_eq, ◌≡◌, some, ==_refl, arith}
use effect_broker.Models.{EffectRecord}
use effect_broker.Store.{EffectStore}
use effect_broker.Store.Laws.{StoreView, StoreLaws}
use effect_broker.World.{World}
use effect_broker.Fenced.Attempt.{Settled}
use effect_broker.Fenced.Laws.{Moves}

module _ {S : Type 0} (store : EffectStore S) (view : StoreView S)
    (laws : StoreLaws store view) where
  -- A valid store holds the effect as `r`, with `tries` attempts on record.
  pub record Held (r : EffectRecord) (tries : ℕ) (s : S) : Type 0 where
    pub valid : view.Valid s
    pub found : view.find r.effect_id s ≡ some r
    pub tried : view.attempts r.effect_id s ≡ tries

  module _ {T : Type 0} where
    pub Settled-Held :
        {effect after : EffectRecord} {tries : ℕ} {t' : T} {w w' : World S T}
        → after.effect_id ≡ effect.effect_id
        → Settled store view laws effect after tries t' w w'
        → Held after tries w'.store
    Settled-Held {effect = effect} id st = record {
      valid = st.valid;
      found = ground (arith, st.found effect.effect_id, ==_refl effect.effect_id, id);
      tried = ground (arith, st.attempts effect.effect_id, ==_refl effect.effect_id, id);
    }

    pub Moves-Held :
        {before after : EffectRecord} {tries : ℕ} {w w' : World S T}
        → after.effect_id ≡ before.effect_id
        → Held before tries w.store
        → Moves store view laws before after w w'
        → Held after tries w'.store
    Moves-Held {before = before} id h m = record {
      valid = m.valid;
      found = ground (arith, m.found before.effect_id, ==_refl before.effect_id, id);
      tried = ground (arith, m.same_attempts before.effect_id, h.tried, id);
    }
