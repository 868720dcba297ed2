-- ===== src/Saga/Chain.antt =====
-- The whole rollback after a failed shipment: the compensations in the order of the state machine.
use aws_serverless_patterns.Py.Exec.{◌>>◌, Exec, World, ok}
use aws_serverless_patterns.Prelude.{String, Option, ◌≡◌}
use aws_serverless_patterns.Saga.View.{Saga, in_status, noted, Shows}
use aws_serverless_patterns.Dynamo.{Dynamo}
use aws_serverless_patterns.Py.Host.{Host, dict_get}
use aws_serverless_patterns.Py.Value.{Fields, end, field, str, Value, or_else, get, obj}
use aws_serverless_patterns.Saga.Gate.{Addressed}
use aws_serverless_patterns.Saga.Errors.{SagaError}
use aws_serverless_patterns.Saga.Rollback.{
  Made, release, refund, backward-Ends, cancel_order-Ends, mark_failed-Ends, backward,
}
use aws_serverless_patterns.Py.Ends.{Ends, Ends-bind}
use aws_serverless_patterns.Saga.Compensation.{cancel_order, mark_failed}

-- ReleaseInventory, RefundPayment, CancelOrder, MarkFailed, each with the event of its state.
unfoldable pub roll_back :
    {T : Type 0} → Dynamo T → Host → Fields → Fields → Fields → Fields → Exec SagaError T Fields
roll_back d host release_event refund_event cancel_event failed_event = do
  backward d host release release_event
  backward d host refund refund_event
  cancel_order d host cancel_event
  mark_failed d host failed_event

-- What the item shows after it: every compensation done with its id, and the saga failed.
abbrev pub rolled_back : String → String → Saga → Saga
rolled_back reservation_id payment_id saga = in_status "FAILED" (
    noted "cancel_order" "DONE" end (
      in_status "COMPENSATING" (
        noted "refund_payment" "DONE" (field "payment_id" (str payment_id) end) (
          in_status "COMPENSATING" (
            noted "release_inventory" "DONE" (field "reservation_id" (str reservation_id) end)
              (in_status "COMPENSATING" saga))))))

module _ {T : Type 0} (d : Dynamo T) (host : Host) {k : String} (e1 e2 e3 e4 : Fields)
    (a1 : Addressed e1 k) (a2 : Addressed e2 k) (a3 : Addressed e3 k) (a4 : Addressed e4 k) where
  -- For four events addressed to one order that is in the table, the first of which holds a
  -- reservation id and the second a payment id, texts that are not empty, and the fourth either no
  -- error or one that is an object, as a Catch rule puts it, running release_inventory,
  -- refund_payment, cancel_order and mark_failed in this order raises nothing, undoes exactly
  -- those two ids, records every compensation as DONE, leaves all other recorded steps and the
  -- attempt counters, and ends in status FAILED.
  pub roll_back-Ends :
      {reservation_id payment_id : String} {cause : Option Value} (w : World T) (saga : Saga)
      → Made release e1 reservation_id
      → Made refund e2 payment_id
      → dict_get {E = SagaError} (or_else (get "error" e4) (obj end)) "Cause" ≡ ok cause
      → Shows d k saga w.cloud
      → Ends
          (Shows d k)
          (roll_back d host e1 e2 e3 e4)
          w
          (field "status" (str "FAILED") end)
          (rolled_back reservation_id payment_id saga)
  unfolding roll_back
  roll_back-Ends w saga reserved paid said h =
      Ends-bind _ _ w (backward-Ends d host e1 a1 w h release reserved) λ h1.
        Ends-bind _ _ _ (backward-Ends d host e2 a2 _ h1 refund paid) λ h2.
          Ends-bind _ _ _ (cancel_order-Ends d host e3 a3 _ h2)
            λ h3. mark_failed-Ends d host e4 a4 _ h3 said
