-- ===== src/ToolRegistry.antt =====
-- packages/tool_registry: the tool specifications and the registry.
pub mod Spec
pub mod Registry
pub mod Registration
mod Tests
