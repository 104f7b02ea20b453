-- ===== src/Decision.antt =====
-- The decision engine: src/ai_company/decision.
pub mod Models
pub mod Risk
pub mod Approval
pub mod Routing
pub mod Policy
pub mod History
pub mod Engine
mod Tests
