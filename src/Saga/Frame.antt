-- ===== src/Saga/Frame.antt =====
-- A handler touches the item of its own order and no other.
use aws_serverless_patterns.Prelude.{ℕ, String, ◌≡◌, refl, ◌≢◌, Option, none, some, arith, ◌∙◌, ap}
use aws_serverless_patterns.Py.Value.{Value, Number, str, Fields, get, obj}
use aws_serverless_patterns.Py.Host.{Host, subscript}
use aws_serverless_patterns.Py.Exec.{ok, Exec, ◌>>=◌, lift, World}
use aws_serverless_patterns.Py.Keeps.{Keeps, keeps_rules, Keeps-bind-lift}
use aws_serverless_patterns.Dynamo.{Dynamo, Item}
use aws_serverless_patterns.Dynamo.Frame.{HoldsItem, client_rules}
use aws_serverless_patterns.Saga.Errors.{SagaError}
use aws_serverless_patterns.Saga.Compensation.{
  undo, release_inventory, refund_payment, cancel_order, mark_failed,
}
use aws_serverless_patterns.Saga.Handlers.{
  create_order, charge_payment, reserve_inventory, schedule_shipment, complete_saga, order_of,
  maybe_inject_transient, inject_transient,
}
use aws_serverless_patterns.Saga.Task.{Task, invoke}
use aws_serverless_patterns.Saga.Store.{record_step, increment_attempt, start, set_status}

-- The value under `order_id` in the event's order.
abbrev pub key_in : Option Value → Option Value
key_in (some (obj order)) = get "order_id" order
key_in v = none

abbrev pub order_key : Fields → Option Value
order_key event = key_in (get "order" event)

pub order_key_lem :
    (event order : Fields) (key : Value)
    → order_of event ≡ ok order
    → subscript {E = SagaError} order "order_id" ≡ ok key
    → order_key event ≡ some key
unfolding order_of subscript
order_key_lem event order key valid found = ground arith

key_ne :
    (event : Fields) (key : Value) {j : String}
    → order_key event ≢ some (str j)
    → order_key event ≡ some key
    → key ≢ str j
key_ne event key ne e same = ne (e ∙ ap some same)

module _ {T : Type 0} (d : Dynamo T) (host : Host) (j : String) (x : Option Item) where
  abbrev Holds : T → Type 0
  Holds = HoldsItem d j x

  record_step-Holds :
      (key : Value) (step status : String) (detail : Fields)
      → key ≢ str j
      → Keeps Holds (record_step d host key step status detail)
  unfolding record_step
  record_step-Holds key step status detail ne = search client_rules

  set_status-Holds :
      (key : Value) (status : String) → key ≢ str j → Keeps Holds (set_status d host key status)
  unfolding set_status
  set_status-Holds key status ne = search client_rules

  increment_attempt-Holds :
      (key : Value) (step : String) → key ≢ str j → Keeps Holds (increment_attempt d host key step)
  unfolding increment_attempt
  increment_attempt-Holds key step ne = search client_rules

  start-Holds :
      (key : Value) (customer_id currency : String) (amount : Number) (ttl_seconds : ℕ)
      → key ≢ str j
      → Keeps Holds (start d host key customer_id amount currency ttl_seconds)
  unfolding start
  start-Holds key customer_id currency amount ttl_seconds ne = search client_rules depth 8

  inject_transient-Holds :
      (key : Value) (step : String) (succeed_on : Option Value)
      → key ≢ str j
      → Keeps Holds (inject_transient d host key step succeed_on)
  inject_transient-Holds key step none ne = search client_rules
  inject_transient-Holds key step (some v) ne =
      search (client_rules, increment_attempt-Holds) depth 8

  maybe_inject_transient-Holds :
      (key : Value) (step : String) (event : Fields)
      → key ≢ str j
      → Keeps Holds (maybe_inject_transient d host key step event)
  unfolding maybe_inject_transient
  maybe_inject_transient-Holds key step event ne = search (keeps_rules, inject_transient-Holds)

  undo-Holds :
      (key : Value) (step name done : String) (id : Option Value)
      → key ≢ str j
      → Keeps Holds (undo d host key step name done id)
  undo-Holds key step name done none ne = search (keeps_rules, record_step-Holds)
  undo-Holds key step name done (some id) ne = search (keeps_rules, record_step-Holds) depth 8

  ruleset store_rules = (
    keeps_rules, record_step-Holds, set_status-Holds, start-Holds, maybe_inject_transient-Holds,
    undo-Holds,
  )

  with_order-Holds :
      {A : Type 0} (event : Fields) (f : Fields → Value → Exec SagaError T A)
      → ((order : Fields) (key : Value) → order_key event ≡ some key → Keeps Holds (f order key))
      → Keeps Holds (
          lift (order_of event) >>= λ order.
          lift (subscript order "order_id") >>= λ key. f order key)
  with_order-Holds event f body = Keeps-bind-lift (order_of event) _ λ order valid.
      Keeps-bind-lift (subscript order "order_id") _
        λ key found. body order key (order_key_lem event order key valid found)

  -- For another order's event, `j` keeps its item, whether the handler returns or raises.
  invoke-Holds :
      (task : Task) (event : Fields)
      → order_key event ≢ some (str j)
      → Keeps Holds (invoke d host task event)
  unfolding invoke create_order charge_payment reserve_inventory schedule_shipment complete_saga
      release_inventory refund_payment cancel_order mark_failed
  invoke-Holds Task.create_order event ne =
      with_order-Holds event _ λ order key e. search (store_rules, key_ne event key ne e) depth 30
  invoke-Holds _ event ne =
      with_order-Holds event _ λ order key e. search (store_rules, key_ne event key ne e) depth 30

-- Each of the nine handlers, whatever its event, its state and the way it ends, leaves the item of
-- every order but the one that its event names as it was.
pub invoke-frame :
    {T : Type 0} (d : Dynamo T) (host : Host) (task : Task) (event : Fields) (j : String)
    (w : World T)
    → order_key event ≢ some (str j)
    → d.item (invoke d host task event w).1.cloud j ≡ d.item w.cloud j
invoke-frame d host task event j w ne =
    (invoke-Holds d host j (d.item w.cloud j) task event ne).at w refl
