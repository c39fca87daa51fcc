-- ===== src/Api.antt =====
-- apps/mcp-gateway/app/main.py: the HTTP routes of the gateway.
pub mod Served
pub mod Tools
pub mod Records
pub mod Approvals
pub mod Sync
pub mod Startup
pub mod Started
mod Tests
