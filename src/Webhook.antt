-- ===== src/Webhook.antt =====
-- The pattern patterns/webhook-ingest: an SQS consumer that verifies signed webhooks.
mod Verify
mod Handler
mod Tests
