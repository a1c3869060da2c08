-- ===== src/Store/Memory.antt =====
-- The in-memory store (src/effect_broker/store/memory.py). The lock is held over each whole
-- method, so a method is one step on the state. The proofs are in the modules below.
mod State
mod Claim
mod Reads
pub mod Ids
pub mod Invariant
pub mod Steps
pub mod Reservation
pub mod ClaimOne
pub mod ClaimRound
pub mod ClaimLoop
pub mod Claims
pub mod Leases
pub mod Evolves
pub mod Runs
pub mod Conforms
pub mod Replay
pub use State.{
  MemoryEvent, Lease, Attempt, MemoryStore, EventType, reserved, claimed, attempt_started,
  transitioned,
}
unfoldable pub use State.{
  empty_store, effect_id_of, reserve, reserve_replay, reserve_new, start_attempt, transition,
  record_for_update, append_event, new_record, keeps_lease,
}
unfoldable pub use Claim.{is_free, is_due, is_full, claim_one, claim_step, claim_loop, claim_due}
unfoldable pub use Reads.{
  get, list, is_success, last_success, metadata_of, get_member, is_text, or_empty, receipt_of,
  receipt, events, attempt_count, count,
}
