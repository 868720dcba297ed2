-- ===== src/Saga.antt =====
-- patterns/saga/src: the order-fulfilment saga.
pub mod Errors
pub mod Store
pub mod Handlers
pub mod Compensation
pub mod Task
pub mod Frame
pub mod View
pub mod Gate
pub mod Forward
pub mod Rollback
pub mod Retry
pub mod Create
pub mod Chain
pub mod Machine
mod Sample
mod Tests
