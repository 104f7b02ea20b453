-- ===== src/Runtime.antt =====
-- src/ai_company/runtime: phase, heartbeats, watchdog, circuit breaker, recovery, health
-- and supervisor.
pub mod Lifecycle
pub mod Heartbeat
pub mod Watchdog
pub mod CircuitBreaker
pub mod Policies
pub mod Recovery
pub mod Health
pub mod Supervisor
mod Tests
