-- ===== src/Orchestrator/Service.antt =====
-- orchestrator/internal/service/saga.go, handler by handler, and the router of
-- orchestrator/internal/consumer. `Shared` has what the handlers repeat.
pub mod Shared
pub mod Growth
pub mod Effects
pub mod Refusals
pub mod Rules
pub mod Sending
pub mod Booking
pub mod Forward
pub mod Failures
pub mod Compensation
pub mod Scheduler
pub mod Replay
pub mod Router
pub mod Growing
