-- ===== src/Saga/Machine/Stage.antt =====
-- What holds in each state of the machine, and what keeps it: any call of its task, and the calls
-- for other orders.
use aws_serverless_patterns.Prelude.{String, ◌≡◌, refl, ◌⊎◌, inl, inr}
use aws_serverless_patterns.Py.Host.{Host}
use aws_serverless_patterns.Py.Exec.{World}
use aws_serverless_patterns.Dynamo.{Dynamo}
use aws_serverless_patterns.Saga.View.{Saga}
use aws_serverless_patterns.Saga.Gate.{Addressed}
use aws_serverless_patterns.Saga.Handlers.{Event}
use aws_serverless_patterns.Saga.Forward.{charge, reserve, ship, forward}
use aws_serverless_patterns.Saga.Rollback.{release, refund, backward}
use aws_serverless_patterns.Saga.Task.{
  Task, create_order, charge_payment, reserve_inventory, schedule_shipment, complete_saga,
  release_inventory, refund_payment, cancel_order, mark_failed, invoke,
}
use aws_serverless_patterns.Saga.Machine.{
  State, initialize_saga, running, completed, saga_failed, compensation_failed, aborted,
}
use aws_serverless_patterns.Saga.Machine.Data.{Lacks}
use aws_serverless_patterns.Saga.Machine.Shown.{Showing, IsStable, forward-Keeps, Showing-same}
use aws_serverless_patterns.Saga.Machine.Ledger.{Booked, Booked-keep, Settled, Settled-keep}
use aws_serverless_patterns.Saga.Machine.Undone.{
  backward-Showing, cancel_order-Showing, complete_saga-Showing, mark_failed-Showing,
}

-- Nothing that a compensation would undo.
abbrev pub Untouched : Event → Type 0
Untouched event = Lacks "payment" event × Lacks "reservation" event

abbrev pub Shipped : Event → Saga → Type 0
Shipped event saga = Booked charge event saga × Booked reserve event saga × Booked ship event saga

abbrev pub Compensated : Event → Saga → Type 0
Compensated event saga = Settled refund event saga × Settled release event saga

-- The facts that the item shows while a task runs.
abbrev pub Facts : Task → Event → Saga → Type 0
Facts create_order event saga = Unit {0}
Facts charge_payment event saga = Untouched event
Facts reserve_inventory event saga = Booked charge event saga × Lacks "reservation" event
Facts schedule_shipment event saga = Booked charge event saga × Booked reserve event saga
Facts complete_saga event saga = Shipped event saga
Facts release_inventory event saga = Booked charge event saga × Booked reserve event saga
Facts refund_payment event saga = Booked charge event saga × Settled release event saga
Facts cancel_order event saga = Compensated event saga
Facts mark_failed event saga = Compensated event saga

module _ {T : Type 0} (d : Dynamo T) (k : String) where
  -- An item that shows the facts in a status.
  abbrev pub InStatus : String → (Saga → Type 0) → T → Type 0
  InStatus status F = Showing d k λ saga. (saga.status ≡ status) × F saga

  abbrev pub Stage : State → Event → T → Type 0
  Stage (running create_order) event t = Untouched event
  Stage (running mark_failed) event t = Untouched event ⊎ Showing d k (Facts mark_failed event) t
  Stage (running task) event t = Showing d k (Facts task event) t
  Stage completed event t = InStatus "COMPLETED" (Shipped event) t
  Stage saga_failed event t = Untouched event ⊎ InStatus "FAILED" (Compensated event) t
  Stage state event t = Unit {0}

-- The facts of a forward step are no claim on its own record, nor on attempts.
module _ (event : Event) where
  pub charge-IsStable : IsStable (Facts charge_payment event) "charge_payment"
  charge-IsStable = record { noting = λ detail saga h. h; counting = λ s n saga h. h }

  pub reserve-IsStable : IsStable (Facts reserve_inventory event) "reserve_inventory"
  reserve-IsStable = record {
    noting = λ detail saga h. (Booked-keep refl refl h.0, h.1);
    counting = λ s n saga h. (Booked-keep refl refl h.0, h.1);
  }

  pub ship-IsStable : IsStable (Facts schedule_shipment event) "schedule_shipment"
  ship-IsStable = record {
    noting = λ detail saga h. (Booked-keep refl refl h.0, Booked-keep refl refl h.1);
    counting = λ s n saga h. (Booked-keep refl refl h.0, Booked-keep refl refl h.1);
  }

module _ {T : Type 0} (d : Dynamo T) (host : Host) {k : String} (event : Event)
    (a : Addressed event k) (w : World T) where
  -- A call, whether it returned or raised, leaves its task where it was.
  pub repeat_lem :
      (task : Task)
      → Stage d k (running task) event w.cloud
      → Stage d k (running task) event (invoke d host task event w).1.cloud
  unfolding invoke forward backward
  repeat_lem create_order h = h
  repeat_lem charge_payment h = (forward-Keeps d host event a charge (charge-IsStable event)).at w h
  repeat_lem reserve_inventory h =
      (forward-Keeps d host event a reserve (reserve-IsStable event)).at w h
  repeat_lem schedule_shipment h = (forward-Keeps d host event a ship (ship-IsStable event)).at w h
  repeat_lem complete_saga h =
      complete_saga-Showing d host event a w h
        λ saga f. (Booked-keep refl refl f.0, Booked-keep refl refl f.1, Booked-keep refl refl f.2)
  repeat_lem release_inventory h =
      backward-Showing d host event a w h release h.fact.1.held
        λ saga f. (Booked-keep refl refl f.0, Booked-keep refl refl f.1)
  repeat_lem refund_payment h =
      backward-Showing d host event a w h refund h.fact.0.held
        λ saga f. (Booked-keep refl refl f.0, Settled-keep refl refl f.1)
  repeat_lem cancel_order h =
      cancel_order-Showing d host event a w h
        λ saga f. (Settled-keep refl refl f.0, Settled-keep refl refl f.1)
  repeat_lem mark_failed (inl h) = inl h
  repeat_lem mark_failed (inr h) = inr (
      mark_failed-Showing d host event a w h
        λ saga f. (Settled-keep refl refl f.0, Settled-keep refl refl f.1))

module _ {T : Type 0} (d : Dynamo T) (k : String) (event : Event) {t t' : T}
    (same : d.item t' k ≡ d.item t k) where
  task_elsewhere :
      (task : Task) → Stage d k (running task) event t → Stage d k (running task) event t'
  task_elsewhere create_order h = h
  task_elsewhere charge_payment h = Showing-same same h
  task_elsewhere reserve_inventory h = Showing-same same h
  task_elsewhere schedule_shipment h = Showing-same same h
  task_elsewhere complete_saga h = Showing-same same h
  task_elsewhere release_inventory h = Showing-same same h
  task_elsewhere refund_payment h = Showing-same same h
  task_elsewhere cancel_order h = Showing-same same h
  task_elsewhere mark_failed (inl h) = inl h
  task_elsewhere mark_failed (inr h) = inr (Showing-same same h)

  -- What happens to the items of other orders does not matter.
  pub elsewhere_lem : (state : State) → Stage d k state event t → Stage d k state event t'
  elsewhere_lem initialize_saga h = tt
  elsewhere_lem (running task) h = task_elsewhere task h
  elsewhere_lem completed h = Showing-same same h
  elsewhere_lem saga_failed (inl h) = inl h
  elsewhere_lem saga_failed (inr h) = inr (Showing-same same h)
  elsewhere_lem compensation_failed h = tt
  elsewhere_lem aborted h = tt
