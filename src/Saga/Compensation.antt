-- ===== src/Saga/Compensation.antt =====
-- handlers.py: the compensations, run in reverse order on failure, and the terminal failure step.
use aws_serverless_patterns.Prelude.{String, Option, none, some, not, if◌then◌else◌}
use aws_serverless_patterns.Py.Value.{Value, str, obj, Fields, end, field, get, or_else, truthy}
use aws_serverless_patterns.Py.Host.{Host, dict_get, subscript}
use aws_serverless_patterns.Py.Exec.{Exec, pure, lift, ◌>>=◌, ◌>>◌}
use aws_serverless_patterns.Dynamo.{Dynamo}
use aws_serverless_patterns.Saga.Errors.{SagaError}
use aws_serverless_patterns.Saga.Store.{status_failed, status_compensating, record_step, set_status}
use aws_serverless_patterns.Saga.Handlers.{Event, order_of, completed_detail}

module _ {T : Type 0} (d : Dynamo T) (host : Host) where
  abbrev Step : Type 0 → Type 0
  Step A = Exec SagaError T A

  abbrev skip : Value → String → Step Fields
  skip order_id step = do
    record_step d host order_id step "SKIPPED" end
    pure (field "status" (str "SKIPPED") end)

  -- What follows `if not reservation_id` and `if not payment_id`: `name` is the id's field.
  abbrev pub undo : Value → String → String → String → Option Value → Step Fields
  undo order_id step name done none = skip order_id step
  undo order_id step name done (some id) = if not (truthy id) then skip order_id step else (do
    record_step d host order_id step "DONE" (field name id end)
    pure (field "status" (str done) (field name id end)))

  unfoldable pub release_inventory : Event → Step Fields
  release_inventory event = do
    order ← lift (order_of event)
    order_id ← lift (subscript order "order_id")
    set_status d host order_id status_compensating
    reservation ← lift (completed_detail event "reservation")
    undo order_id "release_inventory" "reservation_id" "RELEASED" (get "reservation_id" reservation)

  unfoldable pub refund_payment : Event → Step Fields
  refund_payment event = do
    order ← lift (order_of event)
    order_id ← lift (subscript order "order_id")
    set_status d host order_id status_compensating
    payment ← lift (completed_detail event "payment")
    undo order_id "refund_payment" "payment_id" "REFUNDED" (get "payment_id" payment)

  unfoldable pub cancel_order : Event → Step Fields
  cancel_order event = do
    order ← lift (order_of event)
    order_id ← lift (subscript order "order_id")
    set_status d host order_id status_compensating
    record_step d host order_id "cancel_order" "DONE" end
    pure (field "status" (str "CANCELLED") (field "order_id" order_id end))

  unfoldable pub mark_failed : Event → Step Fields
  mark_failed event = do
    order ← lift (order_of event)
    order_id ← lift (subscript order "order_id")
    set_status d host order_id status_failed
    cause ← lift (dict_get (or_else (get "error" event) (obj end)) "Cause")
    pure (field "status" (str status_failed) end)
