-- ===== src/Adapters/Simulated.antt =====
-- The simulated target and its adapter (src/effect_broker/adapters/simulated.py).
pub mod Charges
pub mod Conforms
pub mod Once
pub mod Probes
mod Target
pub use Target.{SimulatedCharge, SimulatedTarget}
unfoldable pub use Target.{
  charge_id_of, empty_target, lose_next_response, set_now, first_by_downstream_key, charges_for_key,
  commit, dedupes, dispatch, settlement_elapsed, probe, simulated_adapter,
}
