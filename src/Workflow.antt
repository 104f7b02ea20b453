-- ===== src/Workflow.antt =====
-- src/ai_company/workflow: workflow definitions, their state machine, their validator and contexts.
pub mod Models
pub mod StateMachine
pub mod Checks
pub mod Transitions
pub mod Context
mod Tests
