-- ===== src/Common.antt =====
-- packages/common: the settings that the services share, and the id helpers.
pub mod Settings
pub mod Ids
pub mod Hashing
