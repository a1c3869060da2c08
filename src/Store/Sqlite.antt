-- ===== src/Store/Sqlite.antt =====
-- `SqliteStore` (src/effect_broker/store/sqlite.py): three tables, each method one transaction.
pub mod Tables
pub mod Records
pub mod Methods
pub mod Claim
pub mod Reads
pub mod RoundTrip
pub mod Invariant
pub mod Appends
pub mod Steps
pub mod Transition
pub mod Attempt
pub mod Reservations
pub mod Reserve
pub mod ClaimOne
pub mod ClaimLoop
pub mod Claims
pub mod DueRows
pub mod Steady
pub mod Visible
pub mod Agrees
