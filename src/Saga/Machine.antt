-- ===== src/Saga/Machine.antt =====
-- patterns/saga/statemachine.asl.json: an execution as steps of its states. A task's call is one
-- whole step, which may be repeated any number of times, and given up after any call, whatever the
-- task answered. A call that is cut off between two writes, or that overlaps another for the same
-- order, is no step. Between its steps other
-- executions run, for other orders over the same table.
mod Data
mod Ids
mod Shown
mod Ledger
mod Undone
mod Stage
mod Advance
pub mod Run
pub mod Guarantee
use aws_serverless_patterns.Prelude.{String, Option, none, some, ◌≡◌, ◌≢◌}
use aws_serverless_patterns.Py.Value.{Value, obj, Fields, end, get, set}
use aws_serverless_patterns.Py.Host.{Host}
use aws_serverless_patterns.Py.Exec.{ok, World}
use aws_serverless_patterns.Dynamo.{Dynamo}
use aws_serverless_patterns.Saga.Handlers.{Event}
use aws_serverless_patterns.Saga.Frame.{order_key}
use aws_serverless_patterns.Saga.Task.{
  Task, create_order, charge_payment, reserve_inventory, schedule_shipment, complete_saga,
  release_inventory, refund_payment, cancel_order, mark_failed, invoke,
}

-- The states by name, with the task of a task state. A task without a `Catch` rule that is given up,
-- and the timeout of the execution, abort it.
pub data State : Type 0 where
  initialize_saga : State
  running : Task → State
  completed saga_failed compensation_failed aborted : State

pub record Execution (T : Type 0) : Type 0 where
  pub state : State
  pub event : Event
  pub world : World T

-- `Next`, and `End` of CompleteSaga
abbrev pub next_of : Task → State
next_of create_order = running charge_payment
next_of charge_payment = running reserve_inventory
next_of reserve_inventory = running schedule_shipment
next_of schedule_shipment = running complete_saga
next_of complete_saga = completed
next_of release_inventory = running refund_payment
next_of refund_payment = running cancel_order
next_of cancel_order = running mark_failed
next_of mark_failed = saga_failed

-- `Next` of the `Catch` rule
abbrev pub caught_by : Task → State
caught_by create_order = running mark_failed
caught_by charge_payment = running cancel_order
caught_by reserve_inventory = running refund_payment
caught_by schedule_shipment = running release_inventory
caught_by complete_saga = aborted
caught_by release_inventory = compensation_failed
caught_by refund_payment = compensation_failed
caught_by cancel_order = compensation_failed
caught_by mark_failed = aborted

abbrev pub block_of : Option Value → Fields
block_of (some (obj fs)) = fs
block_of v = end

-- A `ResultPath` of two names; the outer object is made where there is none.
unfoldable pub set_in : String → String → Value → Event → Event
set_in outer name v event = set outer (obj (set name v (block_of (get outer event)))) event

-- The `ResultPath` of a task.
abbrev pub with_result : Task → Fields → Event → Event
with_result create_order r event = set_in "results" "order" (obj r) event
with_result charge_payment r event = set_in "results" "payment" (obj r) event
with_result reserve_inventory r event = set_in "results" "reservation" (obj r) event
with_result schedule_shipment r event = set_in "results" "shipment" (obj r) event
with_result complete_saga r event = set_in "results" "completion" (obj r) event
with_result release_inventory r event = set_in "compensation" "release_inventory" (obj r) event
with_result refund_payment r event = set_in "compensation" "refund_payment" (obj r) event
with_result cancel_order r event = set_in "compensation" "cancel_order" (obj r) event
with_result mark_failed r event = set_in "results" "mark_failed" (obj r) event

-- The `ResultPath` of its `Catch` rule, for the error that Step Functions reports.
abbrev pub with_error : Task → Fields → Event → Event
with_error create_order fault event = set "error" (obj fault) event
with_error charge_payment fault event = set "error" (obj fault) event
with_error reserve_inventory fault event = set "error" (obj fault) event
with_error schedule_shipment fault event = set "error" (obj fault) event
with_error release_inventory fault event = set_in "compensation" "error" (obj fault) event
with_error refund_payment fault event = set_in "compensation" "error" (obj fault) event
with_error cancel_order fault event = set_in "compensation" "error" (obj fault) event
with_error complete_saga fault event = event
with_error mark_failed fault event = event

module _ {T : Type 0} (d : Dynamo T) (host : Host) where
  abbrev pub called : Task → Execution T → World T
  called task e = (invoke d host task e.event e.world).1

  pub data Step (e e' : Execution T) : Type 0 where
    initialize :
        e.state ≡ initialize_saga
        → e' ≡ record e { state = running create_order; event = set "results" (obj end) e.event }
        → Step e e'
    succeed :
        (task : Task) (r : Fields)
        → e.state ≡ running task
        → (invoke d host task e.event e.world).0 ≡ ok r
        → e' ≡ record {
          state = next_of task;
          event = with_result task r e.event;
          world = called task e;
        }
        → Step e e'
    repeat :
        (task : Task) → e.state ≡ running task → e' ≡ record e { world = called task e } → Step e e'
    give_up :
        (task : Task) (fault : Fields)
        → e.state ≡ running task
        → e' ≡ record {
          state = caught_by task;
          event = with_error task fault e.event;
          world = called task e;
        }
        → Step e e'
    -- A call of another execution, which is for another order.
    elsewhere :
        (task : Task) (event : Event)
        → order_key event ≢ order_key e.event
        → e' ≡ record e { world = (invoke d host task event e.world).1 }
        → Step e e'
    expire : e' ≡ record e { state = aborted } → Step e e'

  pub data Reach (input : Event) (w : World T) : Execution T → Type 0 where
    begin : Reach input w (record { state = initialize_saga; event = input; world = w })
    later : {e e' : Execution T} → Reach input w e → Step e e' → Reach input w e'
