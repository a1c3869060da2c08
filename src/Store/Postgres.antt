-- ===== src/Store/Postgres.antt =====
-- `PostgresStore` (src/effect_broker/store/postgres.py): five tables, each method one transaction.
pub mod Tables
pub mod Records
pub mod Methods
pub mod Claim
pub mod Reads
pub mod Durations
pub mod Events
pub mod Fencing
pub mod Receipts
