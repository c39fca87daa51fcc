-- ===== src/Gateway.antt =====
-- apps/mcp-gateway/app: the governed execution pipeline.
pub mod Outcome
pub mod Request
pub mod Execution
pub mod Queueing
pub mod Destructive
pub mod Executor
pub mod Trail
pub mod Commits
pub mod Gate
pub mod SingleUse
pub mod Idempotency
pub mod Effects
pub mod DryRun
pub mod Redaction
pub mod Samples
mod Tests
