-- ===== src/Approval.antt =====
-- The pattern patterns/approval-workflow: a request that a person approves or rejects by a link.
mod Services
mod View
mod Store
mod Email
mod Handlers
mod Outcome
mod Decision
mod Machine
mod Sample
mod Tests
mod LinkTests
