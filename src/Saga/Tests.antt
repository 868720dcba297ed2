-- ===== src/Saga/Tests.antt =====
-- Each theorem of the saga at one order.
use aws_serverless_patterns.Prelude.{none, refl, ◌≡◌, arith, inl, eq_iff}
use aws_serverless_patterns.Saga.Gate.{Addressed, steady-Ends}
use aws_serverless_patterns.Py.Value.{get, field, str, end}
use aws_serverless_patterns.Dynamo.Model.{table_dynamo}
use aws_serverless_patterns.Saga.Handlers.{order_of, create_order, created, maybe_inject_transient}
use aws_serverless_patterns.Py.Host.{float_of, dict_get, subscript, len_of}
use aws_serverless_patterns.Saga.Create.{
  create_order-Ends, create_order_refused, create_order-Fails_flaky,
}
use aws_serverless_patterns.Py.Sample.{sample_host, sample_world}
use aws_serverless_patterns.Py.Ends.{Ends, Fails}
use aws_serverless_patterns.Saga.View.{Shows, noted, started, in_status, attempted}
use aws_serverless_patterns.Prelude.Int.{pos}
use aws_serverless_patterns.Saga.Retry.{Recovered, retry, forward_recovers, forward_exhausts}
use aws_serverless_patterns.Py.Exec.{own, err}
use aws_serverless_patterns.Saga.Forward.{Done, reserve, charge, forward, forward-Done}
use aws_serverless_patterns.Saga.Chain.{roll_back, rolled_back, roll_back-Ends}
use aws_serverless_patterns.Saga.Task.{Task, invoke}
use aws_serverless_patterns.Saga.Rollback.{backward, refund, backward-Missing-Ends}
use aws_serverless_patterns.Saga.Errors.{saga_transient_error, saga_business_error}
use aws_serverless_patterns.Saga.Machine.Guarantee.{
  RolledBack, Finished, saga_failed-RolledBack, completed-Finished,
}
use aws_serverless_patterns.Saga.Machine.Run.{input, failed, finished, failed-Trace, finished-Trace}
use aws_serverless_patterns.Saga.Frame.{invoke-frame}
use aws_serverless_patterns.Saga.Sample.{
  flaky_event-Addressed, created_world, event, free_event-Addressed, failed_event, event-Addressed,
  created_saga, flaky_event, free_event, empty, created-Shows, IsSteady-reserve,
  failed_event-Addressed, IsFlaky-charge, order-Acceptable, no_charge_yet, IsFlaky-create,
  payment-Made, nothing_made, IsSteady-create, reservation-Made, order,
}

-- `create_order` of the sample order, from an empty table.
create_order-Ends_example :
    Ends
      (Shows table_dynamo "ord-1")
      (create_order table_dynamo sample_host event)
      (sample_world empty)
      (created (str "ord-1") 1)
      (noted "create_order" "DONE" (created (str "ord-1") 1) started)
unfolding get len_of event-Addressed
create_order-Ends_example =
    create_order-Ends table_dynamo sample_host event event-Addressed order-Acceptable
      (sample_world empty) 1 IsSteady-create refl refl

create_order-Fails_flaky_example :
    Fails
      (Shows table_dynamo "ord-1")
      (create_order table_dynamo sample_host flaky_event)
      (sample_world empty)
      (own saga_transient_error)
      (attempted "create_order" (pos 1) started)
unfolding flaky_event-Addressed
create_order-Fails_flaky_example =
    create_order-Fails_flaky table_dynamo sample_host flaky_event flaky_event-Addressed
      order-Acceptable (sample_world empty) 2 IsFlaky-create (omega arith)

create_order_refused_example :
    create_order table_dynamo sample_host free_event (sample_world empty)
    ≡ (err (own saga_business_error), sample_world empty)
unfolding free_event-Addressed free_event get float_of
create_order_refused_example =
    create_order_refused table_dynamo sample_host free_event free_event-Addressed
      (sample_world empty) (record { mantissa = pos 0; scale = 0 }) refl (inl refl)

invoke-frame_example :
    (invoke table_dynamo sample_host Task.charge_payment event created_world).1.cloud "ord-2"
    ≡ created_world.cloud "ord-2"
invoke-frame_example =
    invoke-frame table_dynamo sample_host Task.charge_payment event "ord-2" created_world
      (unfold get in λ e. ground (arith, eq_iff "ord-1" "ord-2"))

reserve_gate :
    Ends
      (Shows table_dynamo "ord-1")
      (maybe_inject_transient table_dynamo sample_host (str "ord-1") "reserve_inventory" event)
      created_world
      tt
      created_saga
reserve_gate =
    steady-Ends table_dynamo sample_host "ord-1" refl event "reserve_inventory" created_world
      IsSteady-reserve created-Shows

forward-Done_example :
    Done table_dynamo sample_host "ord-1" reserve event created_world created_saga
unfolding get
forward-Done_example =
    forward-Done table_dynamo sample_host event event-Addressed created_world reserve reserve_gate
      refl tt

forward_recovers_example :
    Recovered table_dynamo sample_host "ord-1" charge event 2 3 created_world created_saga
unfolding event-Addressed get float_of
forward_recovers_example =
    forward_recovers table_dynamo sample_host charge event event-Addressed 3 IsFlaky-charge 2 0
      created_world created_saga refl (record { mantissa = pos 14999; scale = 2 }, refl)
      (omega arith) (omega arith) no_charge_yet created-Shows

forward_exhausts_example :
    Fails
      (Shows table_dynamo "ord-1")
      (retry 1 (forward table_dynamo sample_host charge event))
      created_world
      (own saga_transient_error)
      (attempted "charge_payment" (pos 2) created_saga)
forward_exhausts_example =
    forward_exhausts table_dynamo sample_host charge event event-Addressed 3 IsFlaky-charge 1 0
      created_world created_saga (omega arith) no_charge_yet created-Shows

backward_missing-Ends_example :
    Ends
      (Shows table_dynamo "ord-1")
      (backward table_dynamo sample_host refund event)
      created_world
      (field "status" (str "SKIPPED") end)
      (noted "refund_payment" "SKIPPED" end (in_status "COMPENSATING" created_saga))
backward_missing-Ends_example =
    backward-Missing-Ends table_dynamo sample_host event event-Addressed created_world created-Shows
      refund nothing_made

roll_back-Ends_example :
    Ends
      (Shows table_dynamo "ord-1")
      (roll_back table_dynamo sample_host failed_event failed_event failed_event failed_event)
      created_world
      (field "status" (str "FAILED") end)
      (rolled_back "rsv-1" "pay-1" created_saga)
unfolding dict_get get
roll_back-Ends_example =
    roll_back-Ends table_dynamo sample_host failed_event failed_event failed_event failed_event
      failed_event-Addressed failed_event-Addressed failed_event-Addressed failed_event-Addressed
      {cause = none} created_world created_saga reservation-Made payment-Made refl created-Shows

input-Addressed : Addressed input "ord-1"
unfolding order_of subscript get
input-Addressed = record { order = order; valid = refl; keyed = refl; named = refl }

saga_failed-RolledBack_example : RolledBack table_dynamo "ord-1" failed.event failed.world.cloud
saga_failed-RolledBack_example =
    saga_failed-RolledBack table_dynamo sample_host "ord-1" failed input-Addressed failed-Trace refl

completed-Finished_example : Finished table_dynamo "ord-1" finished.event finished.world.cloud
completed-Finished_example =
    completed-Finished table_dynamo sample_host "ord-1" finished input-Addressed finished-Trace refl
