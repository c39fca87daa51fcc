-- ===== src/Servicebus.antt =====
-- packages/servicebus: the message queue interface and the local backend.
pub mod Interface
pub mod Row
pub mod Local
pub mod Factory
pub mod Azure
