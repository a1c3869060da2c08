-- ===== src/Store.antt =====
-- The effect ledger (src/effect_broker/store): the contract of a store, its laws, and the stores.
mod Interface
pub mod Rows
pub mod Sql
pub mod Numbered
pub mod Values
pub mod Memory
pub mod Sqlite
pub mod Postgres
pub mod Laws
pub use Interface.{EffectStore}
unfoldable pub use Interface.{tenant_key_provider_from_secret}
