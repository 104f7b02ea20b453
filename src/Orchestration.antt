-- ===== src/Orchestration.antt =====
-- src/ai_company/orchestration: status machines and rollback.
pub mod Dependencies
pub mod Executor
pub mod Lifecycle
pub mod Models
pub mod Rollback
mod Tests
