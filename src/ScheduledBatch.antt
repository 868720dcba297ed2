-- ===== src/ScheduledBatch.antt =====
-- The pattern patterns/scheduled-batch: split a run into shards, process them, add them up.
mod Handlers
mod Runs
mod Tests
