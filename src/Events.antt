-- ===== src/Events.antt =====
-- src/ai_company/events: events, filters, subscribers, dispatcher, dead letters and history.
pub mod Models
pub mod Metrics
pub mod Dispatcher
pub mod DeadLetter
pub mod Filters
pub mod History
pub mod Router
pub mod Middleware
pub mod Bus
mod Tests
