-- ===== src/ReferenceTools.antt =====
-- packages/tool_registry/tools.py: the reference tools, their data and their policy declarations.
pub mod Fixtures
pub mod InputModels
pub mod Equality
pub mod Reading
pub mod Lookups
pub mod Reports
pub mod Crm
pub mod Billing
pub mod Assembly
pub mod Diff
pub mod Catalog
pub mod Budget
pub mod Demo
mod Tests
