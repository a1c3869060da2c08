-- ===== src/Tests.antt =====
-- The theorems at concrete inputs.
mod Data
mod Calls
mod Operators
mod Targets
mod Memory
mod Pure
mod Sqlite
mod Postgres
