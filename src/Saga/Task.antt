-- ===== src/Saga/Task.antt =====
-- The nine Lambda functions by name, as the state machine invokes them.
use aws_serverless_patterns.Py.Value.{Fields}
use aws_serverless_patterns.Py.Host.{Host}
use aws_serverless_patterns.Py.Exec.{Exec}
use aws_serverless_patterns.Dynamo.{Dynamo}
use aws_serverless_patterns.Saga.Errors.{SagaError}
use aws_serverless_patterns.Saga.Handlers
use aws_serverless_patterns.Saga.Compensation

pub data Task : Type 0 where
  create_order charge_payment reserve_inventory schedule_shipment complete_saga : Task
  release_inventory refund_payment cancel_order mark_failed : Task

unfoldable pub invoke : {T : Type 0} → Dynamo T → Host → Task → Fields → Exec SagaError T Fields
invoke d host create_order = Handlers.create_order d host
invoke d host charge_payment = Handlers.charge_payment d host
invoke d host reserve_inventory = Handlers.reserve_inventory d host
invoke d host schedule_shipment = Handlers.schedule_shipment d host
invoke d host complete_saga = Handlers.complete_saga d host
invoke d host release_inventory = Compensation.release_inventory d host
invoke d host refund_payment = Compensation.refund_payment d host
invoke d host cancel_order = Compensation.cancel_order d host
invoke d host mark_failed = Compensation.mark_failed d host
