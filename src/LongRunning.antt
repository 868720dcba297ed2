-- ===== src/LongRunning.antt =====
-- The pattern patterns/long-running: an asynchronous job, polled until it ends or the polls run
-- out, and signed off by a person.
pub mod Errors
pub mod View
pub mod Store
pub mod Handlers
pub mod Polling
pub mod Loop
pub mod Waits
pub mod Frame
pub mod Machine
mod Tests
