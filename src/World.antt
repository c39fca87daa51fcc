-- ===== src/World.antt =====
-- The state that the gateway and the worker share: the database of packages/audit and the queue of
-- packages/servicebus, which commits by itself.
use nervora.Audit.Models.{Db}

pub record World (Q : Type 0) : Type 0 where
  pub db : Db
  pub queue : Q
