-- ===== src/Saga/Handlers.antt =====
-- handlers.py: the forward steps, the compensations and the terminal steps.
use aws_serverless_patterns.Prelude.{ℕ, ◌*◌, String, Bool, not, Option, none, some, if◌then◌else◌}
use aws_serverless_patterns.Prelude.Int.{pos, ltb_ℤ, leb_ℤ}
use aws_serverless_patterns.Py.Value.{
  Value, int, float, str, arr, obj, nil, Fields, end, field, get, get_or, or_else, is_text, truthy,
}
use aws_serverless_patterns.Py.Host.{Host, int_of, float_of, str_of, dict_get, subscript, len_of}
use aws_serverless_patterns.Py.Exec.{
  Result, ok, err, Raised, own, Exec, pure, lift, raise_if, draw_id, ◌>>=◌, ◌>>◌,
}
use Prim.Native.String.{◌++◌ as concat}
use aws_serverless_patterns.Dynamo.{Dynamo}
use aws_serverless_patterns.Saga.Errors.{SagaError, saga_transient_error, saga_business_error}
use aws_serverless_patterns.Saga.Store.{
  status_completed, start, record_step, set_status, increment_attempt,
}

abbrev pub default_ttl_seconds : ℕ
default_ttl_seconds = 90 * 24 * 60 * 60

abbrev pub Event : Type 0
Event = Fields

abbrev valid_order : Option Value → Result (Raised SagaError) Fields
valid_order (some (obj order)) = elim (get "order_id" order) [
  | none ↦ err (own saga_business_error)
  | some v ↦ ok order
]
valid_order v = err (own saga_business_error)

-- `_order`
unfoldable pub order_of : Event → Result (Raised SagaError) Fields
order_of event = valid_order (get "order" event)

-- `_completed_detail`
abbrev as_block : Value → Fields
as_block (obj fs) = fs
as_block v = end

unfoldable pub completed_detail : Event → String → Result (Raised SagaError) Fields
completed_detail event step = elim (dict_get (or_else (get "results" event) (obj end)) step) [
  | ok block ↦ ok (as_block (or_else block (obj end)))
  | err e ↦ err e
]

abbrev pub created : Value → ℕ → Fields
created order_id line_items =
    field "order_id" order_id
      (field "status" (str "PENDING") (field "line_items" (int (pos line_items)) end))

abbrev pub fails_at : Event → String → Bool
fails_at event step = is_text (get "fail_at" event) step

module _ {T : Type 0} (d : Dynamo T) (host : Host) where
  abbrev Step : Type 0 → Type 0
  Step A = Exec SagaError T A

  -- `_new_id`
  abbrev pub new_id : String → Step String
  new_id prefix = do hex ← draw_id host.uuid; pure (concat prefix (concat "-" hex))

  -- The part of `_maybe_inject_transient` after its guard.
  abbrev pub inject_transient : Value → String → Option Value → Step (Unit {0})
  inject_transient order_id step none = pure tt
  inject_transient order_id step (some succeed_on) =
      if not (truthy succeed_on) then pure tt else (do
        attempt ← increment_attempt d host order_id step
        target ← lift (int_of host succeed_on)
        raise_if (ltb_ℤ attempt target) (own saga_transient_error))

  unfoldable pub maybe_inject_transient : Value → String → Event → Step (Unit {0})
  maybe_inject_transient order_id step event = do
    succeed_on ← lift (dict_get (or_else (get "flaky_steps" event) (obj end)) step)
    inject_transient order_id step succeed_on

  abbrev pub maybe_inject_business_failure : Event → String → Step (Unit {0})
  maybe_inject_business_failure event step =
      raise_if (fails_at event step) (own saga_business_error)

  unfoldable pub create_order : Event → Step Fields
  create_order event = do
    order ← lift (order_of event)
    order_id ← lift (subscript order "order_id")
    amount ← lift (float_of host (get_or order "amount" (int (pos 0))))
    let items = or_else (get "items" order) (arr nil)
    raise_if (leb_ℤ amount.mantissa (pos 0)) (own saga_business_error)
    raise_if (not (truthy items)) (own saga_business_error)
    start d host order_id (str_of host (get_or order "customer_id" (str "unknown"))) amount
        (str_of host (get_or order "currency" (str "USD"))) default_ttl_seconds
    maybe_inject_transient order_id "create_order" event
    maybe_inject_business_failure event "create_order"
    line_items ← lift (len_of items)
    let result = created order_id line_items
    record_step d host order_id "create_order" "DONE" result
    pure result

  unfoldable pub charge_payment : Event → Step Fields
  charge_payment event = do
    order ← lift (order_of event)
    order_id ← lift (subscript order "order_id")
    maybe_inject_transient order_id "charge_payment" event
    maybe_inject_business_failure event "charge_payment"
    payment_id ← new_id "pay"
    amount ← lift (float_of host (get_or order "amount" (int (pos 0))))
    let result = field "payment_id" (str payment_id) (
        field "amount" (float amount) (
          field "currency" (str (str_of host (get_or order "currency" (str "USD"))))
            (field "status" (str "CHARGED") end)))
    record_step d host order_id "charge_payment" "DONE" (field "payment_id" (str payment_id) end)
    pure result

  unfoldable pub reserve_inventory : Event → Step Fields
  reserve_inventory event = do
    order ← lift (order_of event)
    order_id ← lift (subscript order "order_id")
    maybe_inject_transient order_id "reserve_inventory" event
    maybe_inject_business_failure event "reserve_inventory"
    reservation_id ← new_id "rsv"
    let result = field "reservation_id" (str reservation_id) (
        field "items" (or_else (get "items" order) (arr nil)) (field "status" (str "RESERVED") end))
    record_step d host order_id "reserve_inventory" "DONE"
        (field "reservation_id" (str reservation_id) end)
    pure result

  unfoldable pub schedule_shipment : Event → Step Fields
  schedule_shipment event = do
    order ← lift (order_of event)
    order_id ← lift (subscript order "order_id")
    maybe_inject_transient order_id "schedule_shipment" event
    maybe_inject_business_failure event "schedule_shipment"
    shipment_id ← new_id "shp"
    tracking ← new_id "trk"
    let result =
        field "shipment_id" (str shipment_id) (
          field "tracking_number" (str (host.upper tracking))
            (field "status" (str "SCHEDULED") end))
    record_step d host order_id "schedule_shipment" "DONE"
        (field "shipment_id" (str shipment_id) end)
    pure result

  unfoldable pub complete_saga : Event → Step Fields
  complete_saga event = do
    order ← lift (order_of event)
    order_id ← lift (subscript order "order_id")
    set_status d host order_id status_completed
    pure (field "status" (str status_completed) end)
