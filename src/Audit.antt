-- ===== src/Audit.antt =====
-- packages/audit: the tables, the only writer of their rows, and the transaction around it.
pub mod Models
pub mod Repository
pub mod Session
pub mod Engine
pub mod Pooled
