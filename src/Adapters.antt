-- ===== src/Adapters.antt =====
-- Adapters: the protocol and the simulated target (src/effect_broker/adapters).
mod Protocol
pub mod Conformance
pub mod Simulated
pub use Protocol.{EffectAdapter, AdapterFor}
