-- ===== src/Saga/Errors.antt =====
-- errors.py: the classes that the state machine's `Retry` and `Catch` rules name. The messages are
-- left out.
pub data SagaError : Type 0 where
  saga_transient_error saga_business_error : SagaError
