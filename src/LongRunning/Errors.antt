-- ===== src/LongRunning/Errors.antt =====
-- errors.py
pub data JobError : Type 0 where
  job_not_found : JobError
