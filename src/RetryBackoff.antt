-- ===== src/RetryBackoff.antt =====
-- The pattern patterns/retry-backoff: an SQS consumer that backs a failed record off by changing
-- its visibility.
mod Curve
mod Handler
mod Tests
