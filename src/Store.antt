-- ===== src/Store.antt =====
-- The tables behind the service (models.go, sqlc/schema.sql) and the statements of
-- queries.sql.go over them. Times are microseconds. A statement may fail for a reason outside the
-- tables (a lost connection, a deadline): `faults` says of each coming call whether it does.
pub mod Tables
pub mod Members
pub mod Threads
pub mod Reads
pub mod Window
pub mod SignIn
pub mod Added
pub mod Ordered
pub mod Offered
pub mod Traced
