-- ===== src/FanOut.antt =====
-- The pattern patterns/fan-out: an SQS consumer behind an SNS topic.
mod Worker
mod Tests
