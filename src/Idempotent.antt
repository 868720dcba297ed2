-- ===== src/Idempotent.antt =====
-- The pattern patterns/idempotent-processor: an SQS consumer that Powertools keeps from repeating
-- work.
mod Powertools
mod Key
mod Handler
mod Sample
mod Tests
