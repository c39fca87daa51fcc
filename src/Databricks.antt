-- ===== src/Databricks.antt =====
-- packages/databricks_connector: the mock connector, the prepared one for the real service, and the
-- choice between them.
pub mod Mock
pub mod Factory
