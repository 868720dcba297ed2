-- ===== src/Saga/Machine/Run.antt =====
-- Two executions, for the tests: one that completes, and one whose reservation is given up.
use aws_serverless_patterns.Prelude.{◌≡◌, refl, ◌∙◌, ap, sym, eq_iff, arith}
use aws_serverless_patterns.Py.Value.{
  Fields, field, obj, end, get, set, float_free, float_free_fields, str,
}
use aws_serverless_patterns.Py.Exec.{Result, ok, err, ◌>>=◌}
use aws_serverless_patterns.Py.Sample.{sample_host, sample_world}
use aws_serverless_patterns.Dynamo.Model.{Table, table_dynamo}
use aws_serverless_patterns.Saga.Handlers.{
  Event, order_of, maybe_inject_transient, created, completed_detail,
}
use aws_serverless_patterns.Saga.Task.{
  Task, create_order, charge_payment, reserve_inventory, refund_payment, cancel_order, mark_failed,
  schedule_shipment, complete_saga, invoke,
}
use aws_serverless_patterns.Saga.Machine.{
  Execution, Step, Reach, running, next_of, caught_by, with_result, with_error, set_in,
}
use aws_serverless_patterns.Saga.Handlers
use aws_serverless_patterns.Saga.Compensation
use aws_serverless_patterns.Saga.Sample.{order, empty}
use aws_serverless_patterns.Py.Host.{float_of, len_of, dict_get, subscript}
use aws_serverless_patterns.Saga.Store.{start, record_step, set_status, new_item}
use aws_serverless_patterns.Dynamo.Client.{update_item, put_item}

abbrev pub input : Event
input = field "order" (obj order) end

abbrev returned_fields : {E : Type 0} → Result E Fields → Fields
returned_fields (ok r) = r
returned_fields (err e) = end

-- The execution after one more task that returns, or that is given up.
abbrev pub returns : Task → Execution Table → Execution Table
returns task e =
    let (r, w) = invoke table_dynamo sample_host task e.event e.world in
    record { state = next_of task; event = with_result task (returned_fields r) e.event; world = w }

abbrev pub gives_up : Task → Execution Table → Execution Table
gives_up task e =
    let (r, w) = invoke table_dynamo sample_host task e.event e.world in
    record { state = caught_by task; event = with_error task end e.event; world = w }

abbrev pub begun : Execution Table
begun = record {
  state = running create_order;
  event = set "results" (obj end) input;
  world = sample_world empty;
}

abbrev other_event : Event
other_event = field "order" (obj (field "order_id" (str "ord-2") end)) end

-- Another execution completes its saga meanwhile.
abbrev pub joined : Execution Table
joined = record begun {
  world = (invoke table_dynamo sample_host complete_saga other_event begun.world).1;
}

abbrev pub charged : Execution Table
charged = returns charge_payment (returns create_order joined)

abbrev pub refunded : Execution Table
refunded = returns refund_payment (gives_up reserve_inventory charged)

abbrev pub failed : Execution Table
failed = returns mark_failed (returns cancel_order refunded)

abbrev pub shipped : Execution Table
shipped = returns schedule_shipment (returns reserve_inventory charged)

abbrev pub finished : Execution Table
finished = returns complete_saga shipped

abbrev Trace : Execution Table → Type 0
Trace = Reach table_dynamo sample_host input (sample_world empty)

module _ {e : Execution Table} (path : Trace e) where
  goes :
      (task : Task) (r : Fields)
      → e.state ≡ running task
      → (invoke table_dynamo sample_host task e.event e.world).0 ≡ ok r
      → Trace (returns task e)
  goes task r s returned =
      Reach.later path
        (Step.succeed task _ s (returned ∙ ap (λ x. ok (returned_fields x)) (sym returned)) refl)

  stops : (task : Task) → e.state ≡ running task → Trace (gives_up task e)
  stops task s = Reach.later path (Step.give_up task end s refl)

begun-Trace : Trace begun
begun-Trace = Reach.later Reach.begin (Step.initialize refl refl)

joined-Trace : Trace joined
joined-Trace = Reach.later begun-Trace (
    Step.elsewhere complete_saga other_event
      (unfold get set in λ e. ground (arith, eq_iff "ord-1" "ord-2")) refl)

charged-Trace : Trace charged
unfolding invoke Handlers.create_order Handlers.charge_payment Handlers.reserve_inventory
    Handlers.schedule_shipment Handlers.complete_saga Compensation.refund_payment
    Compensation.cancel_order Compensation.mark_failed order_of get set float_of len_of
    maybe_inject_transient dict_get subscript start record_step set_status update_item put_item
    new_item ◌>>=◌ float_free float_free_fields completed_detail set_in
charged-Trace = goes (goes joined-Trace create_order _ refl refl) charge_payment _ refl refl

pub failed-Trace : Trace failed
unfolding invoke Handlers.create_order Handlers.charge_payment Handlers.reserve_inventory
    Handlers.schedule_shipment Handlers.complete_saga Compensation.refund_payment
    Compensation.cancel_order Compensation.mark_failed order_of get set float_of len_of
    maybe_inject_transient dict_get subscript start record_step set_status update_item put_item
    new_item ◌>>=◌ float_free float_free_fields completed_detail set_in
failed-Trace =
    goes
      (goes (goes (stops charged-Trace reserve_inventory refl) refund_payment _ refl refl)
        cancel_order _ refl refl)
      mark_failed _ refl refl

pub finished-Trace : Trace finished
unfolding invoke Handlers.create_order Handlers.charge_payment Handlers.reserve_inventory
    Handlers.schedule_shipment Handlers.complete_saga Compensation.refund_payment
    Compensation.cancel_order Compensation.mark_failed order_of get set float_of len_of
    maybe_inject_transient dict_get subscript start record_step set_status update_item put_item
    new_item ◌>>=◌ float_free float_free_fields completed_detail set_in
finished-Trace =
    goes (goes (goes charged-Trace reserve_inventory _ refl refl) schedule_shipment _ refl refl)
      complete_saga _ refl refl
