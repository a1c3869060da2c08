-- ===== src/World.antt =====
-- What the worker, the reconciler and the broker act on: a store, a target, the metrics, and the
-- answers of `datetime.now`, which may be any. The lock and the process boundaries are in the
-- modules that use it.
use effect_broker.Prelude.{ℕ, ◌+◌}
use effect_broker.Models.{Time}
use effect_broker.Errors.{Error, ok, err}
use effect_broker.Exec.{Exec}
use effect_broker.Observability.{Metrics}

pub record World (S T : Type 0) : Type 0 where
  pub store : S
  pub target : T
  pub metrics : Metrics
  pub clock : ℕ → Time
  pub reads : ℕ

module _ {S T : Type 0} where
  -- `datetime.now(UTC)`
  abbrev pub read_clock : Exec (World S T) Time
  read_clock w = (ok (w.clock w.reads), record w { reads = w.reads + 1 })

  abbrev pub update_metrics : (Metrics → Metrics) → Exec (World S T) (Unit {0})
  update_metrics f w = (ok tt, record w { metrics = f w.metrics })

module _ {S T A : Type 0} where
  abbrev pub on_store : Exec S A → Exec (World S T) A
  on_store m w = let (r, s) = m w.store in (r, record w { store = s })

  abbrev pub on_target : Exec T A → Exec (World S T) A
  on_target m w = let (r, t) = m w.target in (r, record w { target = t })

  -- `try: m except Exception as exc: handler(exc)`
  abbrev pub recover : Exec (World S T) A → (Error → Exec (World S T) A) → Exec (World S T) A
  recover m handler w = let (r, w') = m w in elim r [ ok a ↦ (ok a, w') | err e ↦ handler e w' ]
