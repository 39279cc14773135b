-- ===== src/Store.antt =====
-- The SQLite repository (src/infra/store.py). A table is the list of its rows in insertion order,
-- a statement is a function on it, and a method is one action on the database: no other method
-- runs between its statement and the read that follows it.
pub mod Records
pub mod Sessions
pub mod Messages
pub mod Inbound
pub mod Interactions
pub mod Auths
pub mod Bindings
pub mod AuditLog
pub mod Tokens
mod Tests
